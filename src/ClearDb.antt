-- ===== src/ClearDb.antt =====
-- clear_db.py: the two databases that it empties, and what it prints. Whether a database answers is an
-- argument.
use group_chat.Prelude.{
  ℕ, ◌≡◌, refl, Bool, true, false, Option, none, some, List, [], ◌∷◌, ◌++◌, length, arith,
  if◌then◌else◌,
}
use group_chat.Python.{Fields}

-- The tables of data/chat.db that the script empties.
pub record ChatDb : Type 0 where
  pub messages : List Fields
  pub user_keys : List Fields

-- The collection `messages` of MongoDB, and data/chat.db, where there is such a file.
pub record Databases : Type 0 where
  pub collection : List Fields
  pub chat_db : Option ChatDb

-- The lines that the script prints.
pub data Printed : Type 0 where
  mongo_deleted : ℕ → Printed
  mongo_failed : Printed
  sqlite_deleted : ℕ → Printed
  sqlite_failed : Printed
  cleared : Printed

-- How the calls of SQLite end: all well, with an exception in the `with` block, which takes the
-- transaction back, or with one after it.
pub data Sqlite : Type 0 where
  answers : Sqlite
  fails_within : Sqlite
  fails_after : Sqlite

unfoldable clear_mongo : Bool → Databases → List Printed × Databases
clear_mongo up dbs =
    if up
    then (mongo_deleted (length dbs.collection) ∷ [], record dbs { collection = [] })
    else (mongo_failed ∷ [], dbs)

empty_file : Databases → Databases
empty_file dbs = record dbs { chat_db = some (record { messages = []; user_keys = [] }) }

clear_file : Sqlite → ChatDb → Databases → List Printed × Databases
unfolding empty_file
clear_file answers db dbs = (sqlite_deleted (length db.messages) ∷ [], empty_file dbs)
clear_file fails_within db dbs = (sqlite_failed ∷ [], dbs)
clear_file fails_after db dbs = (sqlite_failed ∷ [], empty_file dbs)

unfoldable clear_sqlite : Sqlite → Databases → List Printed × Databases
unfolding clear_file
clear_sqlite how dbs = elim dbs.chat_db [ none ↦ ([], dbs) | some db ↦ clear_file how db dbs ]

-- `clear_database`
unfoldable clear_database : Bool → Sqlite → Databases → List Printed × Databases
unfolding clear_mongo clear_sqlite
clear_database up how dbs =
    let (first, dbs₁) = clear_mongo up dbs in
    let (second, dbs₂) = clear_sqlite how dbs₁ in (first ++ second ++ cleared ∷ [], dbs₂)

-- Where neither database answers, both are as they were, and the last line says all the same that they
-- were cleared.
clear_database-unreachable :
    (collection : List Fields) (db : ChatDb)
    → clear_database false fails_within (record { collection = collection; chat_db = some db }) ≡ (
      mongo_failed ∷ sqlite_failed ∷ cleared ∷ [],
      record { collection = collection; chat_db = some db },
    )
unfolding clear_database
clear_database-unreachable collection db = refl

-- Where both answer, nothing is left of the messages and the keys.
clear_database-answered :
    (dbs : Databases) (db : ChatDb)
    → dbs.chat_db ≡ some db
    → (clear_database true answers dbs).1
      ≡ record { collection = []; chat_db = some (record { messages = []; user_keys = [] }) }
unfolding clear_database
clear_database-answered dbs db e = ground arith
