-- ===== src/Builder/Contract/Ending.antt =====
-- Sessions with the remote builder: until `Done`, at `Done`, and after it.
use buildfarm.Base.{
  ℕ, zero, suc, List, [], ◌∷◌, ◌++◌, true, false, Option, none, ◌≡◌, refl, All, replicate,
}
use buildfarm.Base.Result.{returned}
use buildfarm.Builder.Engine.{Machine}
use buildfarm.Builder.Local.{Fetched}
use buildfarm.Builder.Requests.{Request, finishes, of_error, serve, serve_all}
use buildfarm.Builder.Remote.{Bindings, Remote}
use buildfarm.Builder.Remote.Session.{Session, is_done, remote_builder, attempt, attempt_all}
use buildfarm.Builder.Contract.{Follows, run-Follows}
use buildfarm.Builder.Contract.Remote.{known_remotely, remote_builder-Refines}

abbrev pub opened : Option Fetched → Session
opened c = record { is_open = true; fetched = c }

abbrev pub closed : Option Fetched → Session
closed c = record { is_open = false; fetched = c }

module _ {W : Type 0} (b : Bindings W) (m : Machine W) (r : Remote W) where
  until_done :
      (qs : List Request) (c : Option Fetched) (w : W)
      → All (λ q. is_done q ≡ false) qs
      → attempt_all b m r qs (opened c) w ≡ (
          let (answers, (c1, w1)) = serve_all (remote_builder b m r) qs (c, w) in
          returned (answers, opened c1, w1))
  unfolding attempt_all attempt serve_all
  until_done [] c w h = refl
  until_done (q ∷ qs) c w h =
      let (a, (c1, w1)) = serve (remote_builder b m r) q (c, w) in
      rw h.0 (rw (until_done qs c1 w1 h.1) refl)

  done_again :
      (n : ℕ) (c : Option Fetched) (w : W)
      → attempt_all b m r (replicate n finishes) (closed c) w
        ≡ returned (replicate n (finishes, of_error none), closed c, w)
  unfolding attempt_all attempt
  done_again zero c w = refl
  done_again (suc n) c w = rw (done_again n c w) refl

  done_first :
      (n : ℕ) (c : Option Fetched) (w : W)
      → attempt_all b m r (replicate (suc n) finishes) (opened c) w
        ≡ returned (replicate (suc n) (finishes, of_error none), closed c, b.shutdown r.context w)
  unfolding attempt_all attempt serve remote_builder
  done_first n c w = rw (done_again n c (b.shutdown r.context w)) refl

  done_after :
      (qs : List Request) (n : ℕ) (c : Option Fetched) (w : W)
      → All (λ q. is_done q ≡ false) qs
      → attempt_all b m r (qs ++ replicate (suc n) finishes) (opened c) w ≡ (
          let (answers, (c1, w1)) = serve_all (remote_builder b m r) qs (c, w) in
          returned (
            answers ++ replicate (suc n) (finishes, of_error none),
            closed c1,
            b.shutdown r.context w1,
          ))
  unfolding attempt_all attempt serve_all
  done_after [] n c w h = done_first n c w
  done_after (q ∷ qs) n c w h =
      let (a, (c1, w1)) = serve (remote_builder b m r) q (c, w) in
      rw h.0 (rw (done_after qs n c1 w1 h.1) refl)

  -- Until `Done` is called, a session with the remote builder never follows a nil pointer, gives the
  -- answers of the builder on an open connection, and settles the platforms once. `Done` shuts the
  -- engine down; calling it again, however often, succeeds and does nothing.
  pub session-Done :
      (qs : List Request) (n : ℕ) (c : Option Fetched) (w : W)
      → All (λ q. is_done q ≡ false) qs
      → let (answers, (c1, w1)) = serve_all (remote_builder b m r) qs (c, w) in
        (attempt_all b m r qs (opened c) w ≡ returned (answers, opened c1, w1))
        × (attempt_all b m r (qs ++ replicate (suc n) finishes) (opened c) w
            ≡ returned (
              answers ++ replicate (suc n) (finishes, of_error none),
              closed c1,
              b.shutdown r.context w1,
            ))
        × Follows (remote_builder b m r) known_remotely qs (c, w)
  session-Done qs n c w h = (
    until_done qs c w h,
    done_after qs n c w h,
    run-Follows (remote_builder b m r) known_remotely (remote_builder-Refines b m r) qs (c, w),
  )
