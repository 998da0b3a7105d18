-- ===== src/Tests/Placement.antt =====
-- Examples for the rooms that a client is in.
use group_chat.Prelude.{
  ◌≡◌, refl, ap, true, false, none, some, [], codes, get, put, str-discrete, All,
}
use group_chat.Config.{default_rooms}
use group_chat.Node.Defs.{sender_round}
use group_chat.Node.Start.{Run-IsPlaced}
use group_chat.Node.Steps.{Run, Step, IsStart}
use group_chat.Python.{Fields, null, str, obj}
use group_chat.Result.{raise}
use group_chat.Server.Defs.{Client, Server, online, is_empty}
use group_chat.Server.Handlers.{room_or_default}
use group_chat.Server.Session.Joining.{connect-IsPlaced}
use group_chat.Rooms.Defs.{room_exists, members_of, ensure_room}
use group_chat.Rooms.Members.{members_of-ensure_room}
use group_chat.Server.Names.{is_valid_room_name}
use group_chat.Server.Session.{connect, disconnect, round, init_rooms}
use group_chat.Server.Session.Placement.{IsPlaced}
use group_chat.Tests.{host, draw, store}

abbrev nobody : Server
nobody = record {
  clients = [];
  usernames = [];
  rooms = ensure_room 1 (codes "random") [];
  net = record { queues = []; direct = [] };
  closing = [];
  store = store;
  peers = [];
  tasks = [];
}

nobody-IsPlaced : IsPlaced nobody.clients nobody.rooms
unfolding get members_of
nobody-IsPlaced = record {
  own = λ cid c e. cc;
  here = λ cid r m e.
      let gone : get cid (members_of r nobody.rooms) ≡ none =
        ap (get cid) (members_of-ensure_room 1 (codes "random") r []) in
      cc;
}

-- One connection.
abbrev connected : Server
connected = connect host draw null (some (codes "ann")) nobody

connected-IsPlaced : IsPlaced connected.clients connected.rooms
connected-IsPlaced =
    connect-IsPlaced host draw null (some (codes "ann")) nobody (unfold is_empty in refl)
      (unfold get in refl) nobody-IsPlaced

abbrev join_frame : Fields
join_frame =
    Fields.field "type" (str (codes "join")) (Fields.field "room" (str (codes "random")) Fields.end)

abbrev ann : Client
ann = record {
  id = codes "u9";
  connected = true;
  username = some (codes "ann");
  room = codes "general";
  is_admin = false;
  muted = false;
  presence = online;
  last_activity = 5000;
  explicitly_joined = false;
  key_pair = none;
}

ann_found : get (codes "u9") connected.clients ≡ some ann
unfolding connect get put str-discrete room_or_default is_valid_room_name
ann_found = refl

-- A node that has just started.
abbrev pub started : Server
started = record {
  clients = [];
  usernames = [];
  rooms = init_rooms host 1 [];
  net = record { queues = []; direct = [] };
  closing = [];
  store = store;
  peers = [];
  tasks = [];
}

started-IsStart : IsStart host 1 started
started-IsStart = record { no_clients = refl; rooms = refl }

abbrev seated : Server
seated = connect host draw null (some (codes "ann")) started

abbrev joined : Server
joined = round host draw raise (codes "u9") (some (obj join_frame)) seated

abbrev told : Server
told = (sender_round (codes "u9") true joined).1

abbrev closed : Server
closed = disconnect host (codes "u9") told

-- A connection, a join, a frame sent and the end of the connection.
started-Run : Run host started closed
unfolding get
started-Run =
    Run.next
      (Run.next
        (Run.next (Run.next Run.here (Step.connects draw null (some (codes "ann")) started refl))
          (Step.receives draw raise (codes "u9") (some (obj join_frame)) seated))
        (Step.sends (codes "u9") true joined))
      (Step.closes (codes "u9") told)

Run-IsPlaced_example :
    IsPlaced closed.clients closed.rooms
    × All (λ r. room_exists r closed.rooms ≡ true) (default_rooms host.cfg)
Run-IsPlaced_example =
    Run-IsPlaced host 1 started closed (unfold is_empty in refl) started-IsStart started-Run
