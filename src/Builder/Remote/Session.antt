-- ===== src/Builder/Remote/Session.antt =====
-- The remote builder as an `ImageBuilder`, and a session with it that `Done` ends.
use buildfarm.Base.{
  List, [], ◌∷◌, Bool, true, false, not, if◌then◌else◌, Option, none, some, Bytes, codes,
}
use buildfarm.Base.Result.{Attempt, panicked, returned, Result, err, ok, Error}
use buildfarm.Types.{ImageBuilder, Call}
use buildfarm.Builder.Engine.{Machine}
use buildfarm.Builder.Local.{Fetched}
use buildfarm.Builder.Local.Builder.{LocalWorld, cached, uncached}
use buildfarm.Builder.Requests.{
  Request, asks_info, asks_native, asks_emulated, pulls_to_local, finishes, Answer, of_error,
  of_reference, serve,
}
use buildfarm.Builder.Remote.{
  Bindings, Remote, remote_info, remote_native_platforms, remote_emulated_platforms, remote_status,
  remote_build, remote_pull_to_file, remote_pull_to_local, remote_remove_image, remote_prune_images,
}

module _ {W : Type 0} (b : Bindings W) (m : Machine W) (r : Remote W) where
  -- `Done`, while the connection is there.
  abbrev pub shut_down : Call (LocalWorld W) (Option Error)
  shut_down (c, w) = (none, (c, b.shutdown r.context w))

  -- `podmanRemote`, with its methods, while the connection is there.
  unfoldable pub remote_builder : ImageBuilder (LocalWorld W)
  remote_builder = record {
    driver = codes "podman-remote";
    name = r.name;
    status = cached (remote_status b r);
    info = cached (remote_info b r);
    native_platforms = cached (remote_native_platforms b r);
    emulated_platforms = cached (remote_emulated_platforms b r);
    build = λ reference files options. cached (remote_build r files options);
    pull_to_file = λ o. uncached (remote_pull_to_file r o);
    pull_to_local = λ o. uncached (remote_pull_to_local m r o);
    remove_image = λ o. uncached (remote_remove_image m r o);
    prune_images = λ o. uncached (remote_prune_images r o);
    done = shut_down;
  }

-- The state of a session: whether the connection is there, and the cache.
pub record Session : Type 0 where
  pub is_open : Bool
  pub fetched : Option Fetched

-- What a request comes to: its answer, and the session and the world behind it.
abbrev pub Served : Type 0 → Type 0
Served W = Answer × Session × W

abbrev pub is_done : Request → Bool
is_done finishes = true
is_done _ = false

module _ {W : Type 0} (b : Bindings W) (m : Machine W) (r : Remote W) where
  abbrev pub still : Bool → Answer × LocalWorld W → Attempt (Served W)
  still is_open (a, (c, w)) = returned (a, record { is_open = is_open; fetched = c }, w)

  -- `PullToLocal` makes its file before it follows the engine's pointer.
  abbrev pub closed_pull : Option Fetched → Result Bytes × W → Attempt (Served W)
  closed_pull c (err e, w) = still false (of_reference (err e), (c, w))
  closed_pull c (ok file, w) = panicked

  -- Without a connection: the platforms are answered from the cache, and `Done` does nothing.
  abbrev pub serve_closed : Request → Option Fetched → W → Attempt (Served W)
  serve_closed asks_info (some f) w =
      still false (serve (remote_builder b m r) asks_info (some f, w))
  serve_closed asks_native (some f) w =
      still false (serve (remote_builder b m r) asks_native (some f, w))
  serve_closed asks_emulated (some f) w =
      still false (serve (remote_builder b m r) asks_emulated (some f, w))
  serve_closed finishes c w = still false (of_error none, (c, w))
  serve_closed (pulls_to_local o) c w = closed_pull c (m.temp_file w)
  serve_closed _ c w = panicked

  -- A call of a method on the state that it finds.
  unfoldable pub attempt : Request → Session → W → Attempt (Served W)
  unfolding serve remote_builder
  attempt q s w =
      if s.is_open
      then still (not (is_done q)) (serve (remote_builder b m r) q (s.fetched, w))
      else serve_closed q s.fetched w

  abbrev pub and_then :
      Request
      → Attempt (Served W)
      → (Session → W → Attempt (List (Request × Answer) × Session × W))
      → Attempt (List (Request × Answer) × Session × W)
  and_then q panicked rest = panicked
  and_then q (returned (a, s, w)) rest = elim (rest s w) [
    | panicked ↦ panicked
    | returned t ↦ returned ((q, a) ∷ t.0, t.1, t.2)
  ]

  -- A session: calls one after the other, each with its answer.
  unfoldable pub attempt_all :
      List Request → Session → W → Attempt (List (Request × Answer) × Session × W)
  unfolding attempt
  attempt_all [] s w = returned ([], s, w)
  attempt_all (q ∷ qs) s w = and_then q (attempt q s w) (attempt_all qs)
