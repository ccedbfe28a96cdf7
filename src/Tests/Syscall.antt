-- ===== src/Tests/Syscall.antt =====
-- The theorems about the system calls, at concrete inputs.
use faasten.Base.{
  ◌≡◌, refl, true, false, none, some, List, [], ◌∷◌, if◌then◌else◌, ◌==◌, number_eq, name_eq, arith,
}
use faasten.Base.Dict
use faasten.Fs.Types.{
  Kind, Item, DirEntry, root_ref, Labeled, Directory, File, Gate, direct, redirect, DirectGate,
  RedirectGate, GateRef, Service, HttpVerb,
}
use faasten.Fs.World.{World, Outcome, ok, diverges}
use faasten.Fs.Object.{
  link, read_file_ref, write_file_ref, gate_to_invokable, service_replace, gate_replace,
}
use faasten.Fs.Object.{new_ref}
use faasten.Fs.Object.Fresh.{first_free}
use faasten.Fs.Ops.{create_direct_gate}
use faasten.Fs.Ops.Creates.{Created, create_direct_gate-Created}
use faasten.Fs.Object.Directory.{alone, tainted}
use faasten.Fs.Object.Files.{rewritten, service_replace_lem, gate_replace_lem}
use faasten.Fs.Object.Gates.{
  Leads, ends, hops, accumulated, gate_to_invokable_lem, gate_to_invokable-circular,
}
use faasten.Syscall.Messages.{Syscall, OpenEntry}
use faasten.Syscall.Server.{Digest, Server, Conn}
use faasten.Syscall.Dents.{dent_link, dent_open, plain_result, opened, kind_of}
use faasten.Syscall.Invoke.{dent_invoke}
use faasten.Syscall.Blobs.{blob_done}
use faasten.Syscall.Run.{Incoming, serve, run, new_processor}
use faasten.Syscall.Fresh.{Fresh}
use faasten.Syscall.Privilege.{serve-privilege}
use faasten.Syscall.Start.{run-Fresh}
use faasten.Syscall.Contents.{smooth, store_and_read, store_and_read_lem}
use faasten.Syscall.Outcomes.{calm, dent_link_lem, dent_open-found}
use faasten.Syscall.Answers.{invocation, tried_on, answer, response}
use faasten.Syscall.Sending.{dent_invoke-gate}
use faasten.Syscall.Messages.{LabeledInvoke}
use faasten.Tests.Setup.{
  number_labels, doc_serde, of_directory, of_gate, of_file, of_service, root_dir, admin,
}

instance abbrev pub one_digest : Digest
one_digest = record { hash = λ b. "abcd" }

abbrev pub entry : DirEntry
entry = DirEntry.gate (record { uid = 3 })

abbrev pub full_dir : Labeled Directory
full_dir = record root_dir { contents = record { entries = ("a", entry) ∷ [] } }

abbrev pub final_gate : DirectGate
final_gate = record {
  privilege = 2;
  invoker_integrity_clearance = 1;
  declassify = 0;
  function = record { memory = 128; app_image = "app"; runtime_image = "rt"; kernel = "k" };
}

abbrev pub first_hop : RedirectGate
first_hop = record {
  privilege = 1;
  invoker_integrity_clearance = 3;
  declassify = 1;
  gate = record { uid = 4 };
}

abbrev pub stored_hop : Labeled Gate
stored_hop = record { label = (0, 9); contents = redirect first_hop }

abbrev pub stored_final : Labeled Gate
stored_final = record { label = (0, 9); contents = direct final_gate }

abbrev pub loop : RedirectGate
loop = record first_hop { gate = record { uid = 6 } }

abbrev pub some_file : Labeled File
some_file = record { label = (0, 9); contents = 1 ∷ 2 ∷ [] }

abbrev pub some_service : Service
some_service = record {
  privilege = 3;
  invoker_integrity_clearance = 1;
  taint = (0, 0);
  url = "https://a.b";
  verb = HttpVerb.head;
  headers = [];
}

abbrev pub stored_service : Labeled Service
stored_service = record { label = (0, 9); contents = some_service }

-- A root directory with the entry, a file, a gate that leads to another one, and a circular gate.
abbrev pub busy : World
busy = record admin {
  store = λ k.
      if k == 0
      then some (of_directory full_dir)
      else if k == 3
      then some (of_gate stored_hop)
      else if k == 4
      then some (of_gate stored_final)
      else if k == 5
      then some (of_file some_file)
      else if k == 6
      then some (of_gate (record { label = (0, 9); contents = redirect loop }))
      else if k == 7
      then some (of_service stored_service)
      else none;
}

abbrev pub link_to_scheduler : Conn
link_to_scheduler = record { sent = []; accepts = []; returns = [] }

abbrev pub server : Server
server = record {
  world = busy;
  dents = (0, DirEntry.directory root_ref) ∷ (1, entry) ∷ [];
  blobs = [];
  create_blobs = [];
  max_dent_id = 2;
  max_blob_id = 1;
  blobstore = [];
  io = [];
  sched_conn = some link_to_scheduler;
  http = [];
}

abbrev hop_ref : GateRef
hop_ref = record { uid = 3 }

abbrev leads : Leads busy.store stored_hop.contents (first_hop ∷ []) final_gate
leads = hops first_hop stored_final refl ends

gate_to_invokable_lem_example :
    (gate_to_invokable 2 hop_ref (alone busy)).0
    ≡ ok (accumulated 0 0 0 (first_hop ∷ []) final_gate)
gate_to_invokable_lem_example =
    gate_to_invokable_lem 2 busy hop_ref stored_hop (first_hop ∷ []) final_gate refl leads
      (omega arith)

gate_to_invokable-circular_example : (gate_to_invokable 9 loop.gate (alone busy)).0 ≡ diverges
gate_to_invokable-circular_example = gate_to_invokable-circular 9 busy (0, 9) loop refl

service_replace_lem_example :
    service_replace (record { uid = 7 }) some_service (alone busy)
    ≡ (ok tt, rewritten Item.service busy 7 stored_service some_service)
service_replace_lem_example =
    service_replace_lem busy (record { uid = 7 }) stored_service some_service refl

gate_replace_lem_example :
    gate_replace hop_ref (direct final_gate) (alone busy)
    ≡ (ok tt, rewritten Item.gate busy 3 stored_hop (direct final_gate))
unfolding faasten.Fs.Object.gate_privilege
gate_replace_lem_example = gate_replace_lem busy hop_ref stored_hop (direct final_gate) refl

dent_link_lem_example : dent_link 0 "a" 1 (calm server) ≡ (
  ok (plain_result true none none),
  record server { world = (link root_ref "a" entry (alone busy)).1 },
)
unfolding Dict.get
dent_link_lem_example = dent_link_lem server 0 1 root_ref full_dir "a" entry refl refl refl

dent_open-found_example :
    (dent_open 0 (OpenEntry.name "a") (calm server) ≡ (
      ok (opened 2 (kind_of entry)),
      record server {
        world = tainted (0, 9) (alone busy);
        dents = Dict.insert 2 entry server.dents;
        max_dent_id = 3;
      },
    ))
    × (Dict.get 2 (Dict.insert 2 entry server.dents) ≡ some entry)
unfolding Dict.get
dent_open-found_example = dent_open-found server 0 root_ref full_dir "a" entry refl refl refl

abbrev hop_world : World
hop_world = (gate_to_invokable 2 hop_ref (alone busy)).1

abbrev hop_message : LabeledInvoke
hop_message =
    invocation (accumulated 0 0 0 (first_hop ∷ []) final_gate) hop_world.label 9 (5 ∷ []) true []

dent_invoke-gate_example :
    (dent_invoke 2 1 (5 ∷ []) true false [] (calm server)
      ≡ response
          (answer true false hop_message link_to_scheduler (record server { world = hop_world })))
    × ((dent_invoke 2 1 (5 ∷ []) true false [] (calm server)).1.sched_conn
        ≡ some (tried_on true hop_message link_to_scheduler))
unfolding Dict.get gate_to_invokable faasten.Fs.World.◌>>=◌ faasten.Fs.Object.get_labeled
    faasten.Fs.World.backing_get faasten.Fs.Object.unlabel faasten.Fs.Object.resolve_loop
dent_invoke-gate_example =
    dent_invoke-gate server 2 1 hop_ref stored_hop (first_hop ∷ []) final_gate link_to_scheduler
      (5 ∷ []) true false [] refl refl leads (omega arith) refl

store_and_read_lem_example :
    ((store_and_read (1 ∷ 2 ∷ 3 ∷ []) 1 9 (smooth server)).0
      ≡ ok (blob_done 1 2 (some (2 ∷ 3 ∷ []))))
    × (Dict.get "abcd" (store_and_read (1 ∷ 2 ∷ 3 ∷ []) 1 9 (smooth server)).1.blobstore
        ≡ some (1 ∷ 2 ∷ 3 ∷ []))
store_and_read_lem_example = store_and_read_lem server (1 ∷ 2 ∷ 3 ∷ []) 1 9 refl

abbrev pub session : List Incoming
session =
    Incoming.call (Syscall.dent_open 0 (some (OpenEntry.name "a"))) true
    ∷ Incoming.nothing
    ∷ Incoming.call (Syscall.blob_create none) true
    ∷ Incoming.call (Syscall.response (record { body = none; status_code = 200 })) true
    ∷ []

serve-privilege_example : (serve 2 session server).2.world.privilege ≡ 9
serve-privilege_example = serve-privilege 2 session server

run-Fresh_example :
    Fresh (run 2 (λ c. some []) [] [] [] 9 true session (new_processor (0, 0) 9 server)).2
    × ((run 2
          (λ c. some [])
          []
          []
          []
          9
          true
          session
          (new_processor (0, 0) 9 server)).2.world.privilege
        ≡ 9)
run-Fresh_example =
    run-Fresh 2 (λ c. some []) [] [] [] 9 true session (0, 0) 9 server (omega arith) (omega arith)

create_direct_gate-Created_example :
    Created
      (Kind.labeled Item.gate)
      (record { label = (0, 9); contents = direct final_gate })
      (DirEntry.gate (new_ref 5))
      true
      true
      admin
      5
      (create_direct_gate (0, 9) final_gate (alone admin))
unfolding first_free
create_direct_gate-Created_example =
    create_direct_gate-Created admin (0, 9) final_gate 5 (6 ∷ 7 ∷ []) refl
