-- ===== src/Tests/Session.antt =====
-- Examples for the sessions of the WebSocket server.
use mathlib.Core.Option
use group_chat.Prelude.{
  ◌≡◌, ◌≢◌, ◌∙◌, Option, sym, refl, Bool, true, false, none, some, [], ◌∷◌, Str, codes, get,
  str-discrete,
}
use group_chat.Python.{Fields, str, truth, field_of, field_or, str_of, ◌orelse◌}
use group_chat.Python.Text.{strip}
use group_chat.Server.Defs.{Client, Server, online, set_client, state_of}
use group_chat.Server.Handlers.{handle_message, clean}
use group_chat.Server.RoomHandlers.{kick, handle_moderation, handle_private_message}
use group_chat.Server.Session.{disconnect, shutdown}
use group_chat.Server.Session.Closing.{gone, shutdown-closes}
use group_chat.Server.Session.Private.{IsUntouched, handle_private_message-IsUntouched}
use group_chat.Server.Session.Moderation.{
  SameEffect, IsRefused, handle_moderation-needs_admin, handle_message-ignores_mute,
}
use group_chat.Server.Session.Registry.{disconnect-unregisters}
use group_chat.Tests.{host, draw, store, text_of}

abbrev pub client : Str → Str → Bool → Client
client cid name joined = record {
  id = cid;
  connected = true;
  username = some name;
  room = codes "general";
  is_admin = false;
  muted = false;
  presence = online;
  last_activity = 1;
  explicitly_joined = joined;
  key_pair = none;
}

abbrev ann : Client
ann = client (codes "c1") (codes "ann") true

-- A connection that gave the name in its query, and did not join.
abbrev ghost : Client
ghost = client (codes "c") (codes "ann") false

abbrev server : Server
server = record {
  clients = (codes "c1", ann) ∷ (codes "c", ghost) ∷ [];
  usernames = (codes "ann", codes "c1") ∷ [];
  rooms = [];
  net = record { queues = []; direct = [] };
  closing = [];
  store = store;
  peers = [];
  tasks = [];
}

other_id : codes "c" ≢ codes "c1"
other_id e = cc

disconnect-unregisters_example :
    (get (codes "ann") (disconnect host (codes "c") server).usernames ≡ none)
    × (get (codes "c1") (disconnect host (codes "c") server).clients ≡ some ann)
unfolding get str-discrete
disconnect-unregisters_example =
    disconnect-unregisters host (codes "c") (codes "c1") ghost ann b'a' (codes "nn") server refl
      refl refl refl refl refl other_id

abbrev moderated : Server
moderated =
    handle_moderation host kick (codes "c1") (Fields.field "target" (str (codes "bob")) Fields.end)
      server

handle_moderation-needs_admin_example : IsRefused (codes "c1") server moderated
unfolding get str-discrete
handle_moderation-needs_admin_example =
    handle_moderation-needs_admin host kick (codes "c1")
      (Fields.field "target" (str (codes "bob")) Fields.end) ann server refl refl

handle_message-ignores_mute_example :
    SameEffect host draw
      (handle_message host draw
        (codes "c1")
        (text_of "m1" "hi")
        (set_client (record ann { muted = true }) server))
      (handle_message host draw (codes "c1") (text_of "m1" "hi") server)
unfolding get str-discrete
handle_message-ignores_mute_example =
    handle_message-ignores_mute host draw (codes "c1") (text_of "m1" "hi") true ann server refl refl

shutdown-closes_example :
    get (codes "c1") (shutdown server).clients ≡ Option.map gone (get (codes "c1") server.clients)
shutdown-closes_example = shutdown-closes server (codes "c1")

-- A private message of ann to herself, which the ghost does not get.
abbrev private : Fields
private =
    Fields.field "to" (str (codes "Ann")) (Fields.field "text" (str (codes "psst")) Fields.end)

ann_there :
    get (host.py.lower (clean host (field_of "to" private))) server.usernames ≡ some (codes "c1")
unfolding get str-discrete clean field_or truth ◌orelse◌ strip str_of
ann_there = refl

other_client : ◌≢◌ {A = Option Str} (some (codes "c1")) (some (codes "c"))
other_client e = cc

handle_private_message-IsUntouched_example :
    IsUntouched
      (codes "c")
      server
      (state_of (handle_private_message host draw (codes "c1") private server))
unfolding get str-discrete
handle_private_message-IsUntouched_example =
    handle_private_message-IsUntouched host draw ann private (codes "c") server refl (λ e. cc)
      (λ e. other_client (sym ann_there ∙ e))
