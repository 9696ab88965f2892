-- ===== src/Builder/Contract/Examples.antt =====
-- The theorems on runs of calls at a machine whose engine always succeeds.
use buildfarm.Base.{ℕ, List, [], ◌∷◌, ◌++◌, false, none, codes, replicate, ◌≡◌, refl}
use buildfarm.Base.Result.{ok, returned}
use buildfarm.Types.{Info, RemoveImageOptions}
use buildfarm.Builder.Examples.{engine, machine}
use buildfarm.Builder.Local.Builder.{local_builder}
use buildfarm.Builder.Requests.{
  Request, asks_info, asks_native, removes, finishes, of_error, serve_all,
}
use buildfarm.Builder.Remote.{Host, Bindings, Remote, remote_info}
use buildfarm.Builder.Remote.Opening.{BuildsFor, remote_build-host}
use buildfarm.Builder.Remote.Session.{remote_builder, attempt_all}
use buildfarm.Builder.Contract.{Follows}
use buildfarm.Builder.Contract.Local.{known_locally, local_builder-Follows}
use buildfarm.Builder.Contract.Remote.{known_remotely}
use buildfarm.Builder.Contract.Ending.{opened, closed, session-Done}

abbrev the_image : RemoveImageOptions
the_image = record { image_id = codes "id" }

abbrev requests : List Request
requests = asks_native ∷ removes the_image ∷ asks_info ∷ []

local_builder-Follows_example :
    Follows (local_builder machine engine) known_locally requests (none, 0)
local_builder-Follows_example = local_builder-Follows machine engine requests (none, 0)

abbrev host : Host
host = record { os = codes "linux"; arch = codes "amd64" }

abbrev bindings : Bindings ℕ
bindings = record {
  read_custom_config = λ w. (ok [], w);
  new_connection = λ uri w. (ok 1, w);
  new_connection_with_identity = λ uri identity is_machine w. (ok 2, w);
  new_image_engine = λ uri identity w. (ok engine, w);
  info = λ context w. (ok host, w);
  shutdown = λ context w. 99;
}

abbrev remote : Remote ℕ
remote = record {
  name = codes "far";
  uri = [];
  identity = [];
  is_machine = false;
  context = 1;
  engine = engine;
}

remote_build-host_example :
    BuildsFor remote none (record { os = []; arch = []; variant = [] })
    × ((i : Info)
        → (remote_info bindings remote none 0).0 ≡ ok i
        → (h : Host) × (i.native_platforms ≡ (h.os ++ b'/' ∷ h.arch) ∷ [])
          × BuildsFor remote
              (remote_info bindings remote none 0).1
              (record { os = h.os; arch = h.arch; variant = [] }))
remote_build-host_example = remote_build-host bindings remote 0

session-Done_example :
    let (answers, (c1, w1)) =
      serve_all (remote_builder bindings machine remote) requests (none, 0) in
    (attempt_all bindings machine remote requests (opened none) 0
      ≡ returned (answers, opened c1, w1))
    × (attempt_all bindings machine remote (requests ++ replicate 3 finishes) (opened none) 0
        ≡ returned (answers ++ replicate 3 (finishes, of_error none), closed c1, 99))
    × Follows (remote_builder bindings machine remote) known_remotely requests (none, 0)
session-Done_example =
    session-Done bindings machine remote requests 2 none 0 (refl, (refl, (refl, tt)))
