-- ===== src/Server/Names/Unique.antt =====
-- `_unique_username` ends, with a name that nobody has.
use group_chat.Prelude.{ℕ, ◌≡◌, ◌++◌, Str, codes}
use group_chat.Python.{Python, pos}

-- What Python documents of numerals and of lower case: `str` of a number tells it, and a numeral in
-- parentheses has no case and does not change the lower case of what stands before it.
pub record NameLaws (py : Python) : Type 0 where
  pub str_of_int-injective : (m n : ℕ) → py.str_of_int (pos m) ≡ py.str_of_int (pos n) → m ≡ n
  pub lower-suffix :
      (s : Str) (n : ℕ)
      → py.lower (s ++ (codes "(" ++ (py.str_of_int (pos n) ++ codes ")")))
        ≡ py.lower s ++ (codes "(" ++ (py.str_of_int (pos n) ++ codes ")"))
