-- ===== src/Builder/Contract.antt =====
-- What every `ImageBuilder` with a `sync.Once` promises of its platforms: an abstract machine that
-- knows nothing but what the platforms are, once it has been settled.
use mathlib.Core.Path.{subst}
pub mod Local
pub mod Remote
pub mod Ending
mod Examples
use buildfarm.Base.{
  List, [], ◌∷◌, Bool, true, false, Option, none, some, Bytes, ◌≡◌, ◌⊎◌, inl, inr, refl, ap, All,
}
use buildfarm.Base.Result.{foreign, Result, ok, err, ◌>>=◌}
use buildfarm.Types.{Info, ImageBuilder}
use buildfarm.Builder.Requests.{
  Request, asks_status, asks_info, asks_native, asks_emulated, builds, pulls_to_file,
  pulls_to_local, removes, prunes, finishes, Answer, of_info, of_platforms, serve, serve_all,
}

-- What is known of the platforms.
abbrev pub Known : Type 0
Known = Option (Result Info)

-- The requests whose answer shows the platforms.
abbrev pub shows_platforms : Request → Bool
shows_platforms asks_info = true
shows_platforms asks_native = true
shows_platforms asks_emulated = true
shows_platforms _ = false

-- The answer is the one that `r` accounts for.
abbrev pub Agrees : Result Info → Request × Answer → Type 0
Agrees r (asks_info, a) = a ≡ of_info r
Agrees r (asks_native, a) = a ≡ of_platforms (r >>= λ i. ok i.native_platforms)
Agrees r (asks_emulated, a) = a ≡ of_platforms (r >>= λ i. ok i.emulated_platforms)
Agrees r _ = Unit

-- A move of the machine: any request may settle the platforms, none may change them, and a request
-- that shows them leaves them settled.
pub data Move : Known → Request → Answer → Known → Type 0 where
  quiet : {k : Known} {q : Request} {a : Answer} → shows_platforms q ≡ false → Move k q a k
  settle : {q : Request} {a : Answer} (r : Result Info) → Agrees r (q, a) → Move none q a (some r)
  recall :
      {q : Request} {a : Answer} (r : Result Info) → Agrees r (q, a) → Move (some r) q a (some r)

pub data Trace : Known → List (Request × Answer) → Known → Type 0 where
  stop : {k : Known} → Trace k [] k
  next :
      {k j l : Known} {q : Request} {a : Answer} {rest : List (Request × Answer)}
      → Move k q a j
      → Trace j rest l
      → Trace k ((q, a) ∷ rest) l

quiet-Agrees :
    (r : Result Info) (q : Request) (a : Answer) → shows_platforms q ≡ false → Agrees r (q, a)
quiet-Agrees r asks_info a h = cc
quiet-Agrees r asks_native a h = cc
quiet-Agrees r asks_emulated a h = cc
quiet-Agrees r asks_status a h = tt
quiet-Agrees r finishes a h = tt
quiet-Agrees r (builds reference files options) a h = tt
quiet-Agrees r (pulls_to_file o) a h = tt
quiet-Agrees r (pulls_to_local o) a h = tt
quiet-Agrees r (removes o) a h = tt
quiet-Agrees r (prunes o) a h = tt

-- The platforms may be settled as `r`, or are.
abbrev pub MayBe : Result Info → Known → Type 0
MayBe r k = (k ≡ none) ⊎ (k ≡ some r)

MayBe-some : (r s : Result Info) → MayBe r (some s) → s ≡ r
MayBe-some r s (inl e) = cc
MayBe-some r s (inr e) = cc

Move-back :
    {k j : Known} {q : Request} {a : Answer} (r : Result Info)
    → Move k q a j
    → MayBe r j
    → MayBe r k × Agrees r (q, a)
Move-back r (Move.quiet {q = q} {a} h) e = (e, quiet-Agrees r q a h)
Move-back r (Move.settle {q} {a} s h) e =
    (inl refl, subst (λ t. Agrees t (q, a)) (MayBe-some r s e) h)
Move-back r (Move.recall {q} {a} s h) e =
    (inr (ap some (MayBe-some r s e)), subst (λ t. Agrees t (q, a)) (MayBe-some r s e) h)

Trace-back :
    {k j : Known} {l : List (Request × Answer)} (r : Result Info)
    → Trace k l j
    → MayBe r j
    → MayBe r k × All (Agrees r) l
Trace-back r Trace.stop e = (e, tt)
Trace-back r (Trace.next s t) e =
    let (mid, rest) = Trace-back r t e in
    let (start, here) = Move-back r s mid in (start, (here, rest))

-- Whatever a trace ends in, one `r` accounts for all its answers.
Trace-Agrees :
    {k j : Known} {l : List (Request × Answer)}
    → Trace k l j
    → (r : Result Info) × MayBe r j × All (Agrees r) l
Trace-Agrees {j = none} t = let r = err (foreign 0) in (r, inl refl, (Trace-back r t (inl refl)).1)
Trace-Agrees {j = some r} t = (r, inr refl, (Trace-back r t (inr refl)).1)

-- A builder that goes by the machine; `known` reads off its world what it knows of the platforms.
abbrev pub Refines : {W : Type 0} → ImageBuilder W → (W → Known) → Type 0
Refines {W} b known =
    (q : Request) (w : W) → Move (known w) q (serve b q w).0 (known (serve b q w).1)

-- What a run of a builder comes to: a trace of the machine, whose answers one `r` accounts for.
pub record Follows {W : Type 0} (b : ImageBuilder W) (known : W → Known) (qs : List Request) (w : W)
    : Type 0 where
  pub trace : Trace (known w) (serve_all b qs w).0 (known (serve_all b qs w).1)
  pub platforms : Result Info
  pub ends : MayBe platforms (known (serve_all b qs w).1)
  pub agrees : All (Agrees platforms) (serve_all b qs w).0

module _ {W : Type 0} (b : ImageBuilder W) (known : W → Known) (refines : Refines b known) where
  run-Trace :
      (qs : List Request) (w : W)
      → Trace (known w) (serve_all b qs w).0 (known (serve_all b qs w).1)
  unfolding serve_all
  run-Trace [] w = Trace.stop
  run-Trace (q ∷ qs) w = Trace.next (refines q w) (run-Trace qs (serve b q w).1)

  pub run-Follows : (qs : List Request) (w : W) → Follows b known qs w
  run-Follows qs w =
      let t = run-Trace qs w in
      let (r, e, h) = Trace-Agrees t in record { trace = t; platforms = r; ends = e; agrees = h }
