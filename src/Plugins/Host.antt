-- ===== src/Plugins/Host.antt =====
-- include/plugins/PluginHost.h: the chains of handlers. A handler changes the object it is given; an
-- expired pointer is `none`.
use algiz.Base.{
  ◌≡◌, refl, sym, subst, ◌∙◌, arith, List, [], ◌∷◌, ◌++◌, Option, none, some, Bool, true, false,
  if◌then◌else◌, All,
}

pub data CancelableResult : Type 0 where
  pass kill disable enable approve : CancelableResult

pub data HandlerResult : Type 0 where
  goes_on stops : HandlerResult

unfoldable pub passes_after : CancelableResult → Bool → Bool
passes_after kill should_pass = false
passes_after disable should_pass = false
passes_after approve should_pass = true
passes_after enable should_pass = true
passes_after pass should_pass = should_pass

unfoldable pub is_final : CancelableResult → Bool
is_final kill = true
is_final approve = true
is_final _ = false

abbrev pub Handler {ℓ} : Type ℓ → Type ℓ
Handler T = T → Bool → CancelableResult × T

module _ {ℓ} {T : Type ℓ} where
  -- Whether the event goes through, whether the chain was cut off, and the object.
  unfoldable pub before_multi : T → List (Option (Handler T)) → Bool → Bool × HandlerResult × T
  unfolding passes_after is_final
  before_multi obj [] initial = (initial, goes_on, obj)
  before_multi obj (none ∷ funcs) initial = before_multi obj funcs initial
  before_multi obj (some func ∷ funcs) initial =
      let (result, changed) = func obj initial in
      let should_pass = passes_after result initial in
      let rest = before_multi changed funcs should_pass in
      if is_final result then (should_pass, stops, changed) else rest

  unfoldable pub before : T → List (Option (Handler T)) → Bool × T
  before obj funcs =
      let (should_pass, _, changed) = before_multi obj funcs true in (should_pass, changed)

  -- A second chain, run where the first was not cut off, with its verdict and its object.
  abbrev and_then : Bool × HandlerResult × T → List (Option (Handler T)) → Bool × HandlerResult × T
  and_then (should_pass, stops, obj) funcs = (should_pass, stops, obj)
  and_then (should_pass, goes_on, obj) funcs = before_multi obj funcs should_pass

  -- Both sides of one round.
  cut :
      (b : Bool) (ended whole first : Bool × HandlerResult × T) (ys : List (Option (Handler T)))
      → and_then ended ys ≡ ended
      → whole ≡ and_then first ys
      → (if b then ended else whole) ≡ and_then (if b then ended else first) ys
  cut true ended whole first ys h e = sym h
  cut false ended whole first ys h e = e

  before_multi-append :
      (obj : T) (xs ys : List (Option (Handler T))) (initial : Bool)
      → before_multi obj (xs ++ ys) initial ≡ and_then (before_multi obj xs initial) ys
  unfolding before_multi
  before_multi-append obj [] ys initial = refl
  before_multi-append obj (none ∷ xs) ys initial = before_multi-append obj xs ys initial
  before_multi-append obj (some func ∷ xs) ys initial =
      let changed = (func obj initial).1 in
      let should_pass = passes_after (func obj initial).0 initial in
      cut (is_final (func obj initial).0) (should_pass, stops, changed)
        (before_multi changed (xs ++ ys) should_pass) (before_multi changed xs should_pass) ys refl
        (before_multi-append changed xs ys should_pass)

  -- What an answer does, told without `passes_after` and `is_final`: the object is the one the handler
  -- left, `ys` the handlers behind it, and `b` the verdict it was given.
  abbrev pub answered :
      CancelableResult × T → Bool → List (Option (Handler T)) → Bool × HandlerResult × T
  answered (kill, changed) b ys = (false, stops, changed)
  answered (approve, changed) b ys = (true, stops, changed)
  answered (disable, changed) b ys = before_multi changed ys false
  answered (enable, changed) b ys = before_multi changed ys true
  answered (pass, changed) b ys = before_multi changed ys b

  -- A handler and those behind it, asked after a chain.
  abbrev pub asks :
      Bool × HandlerResult × T → Handler T → List (Option (Handler T)) → Bool × HandlerResult × T
  asks (b, stops, obj) func ys = (b, stops, obj)
  asks (b, goes_on, obj) func ys = answered (func obj b) b ys

  asked :
      (result : CancelableResult) (changed : T) (b : Bool) (ys : List (Option (Handler T)))
      → (if is_final result
          then (passes_after result b, stops, changed)
          else before_multi changed ys (passes_after result b))
        ≡ answered (result, changed) b ys
  unfolding is_final passes_after
  asked pass changed b ys = refl
  asked kill changed b ys = refl
  asked disable changed b ys = refl
  asked enable changed b ys = refl
  asked approve changed b ys = refl

  and_then-asks :
      (r : Bool × HandlerResult × T) (func : Handler T) (ys : List (Option (Handler T)))
      → and_then r (some func ∷ ys) ≡ asks r func ys
  unfolding before_multi
  and_then-asks (b, stops, obj) func ys = refl
  and_then-asks (b, goes_on, obj) func ys = asked (func obj b).0 (func obj b).1 b ys

  -- What a handler at any place of a chain decides. It is not asked where a handler before it has cut the
  -- chain off. Otherwise it gets the object and the verdict so far, and by its answer the event is forbidden
  -- (`kill`) or let through (`approve`) and no later handler is asked, or the later handlers are asked with
  -- its object and with the verdict `false` (`disable`), `true` (`enable`) or the one so far (`pass`).
  pub before_multi-asks :
      (obj : T) (xs : List (Option (Handler T))) (func : Handler T) (ys : List (Option (Handler T)))
      (initial : Bool)
      → before_multi obj (xs ++ some func ∷ ys) initial ≡ asks (before_multi obj xs initial) func ys
  before_multi-asks obj xs func ys initial =
      before_multi-append obj xs (some func ∷ ys) initial
      ∙ and_then-asks (before_multi obj xs initial) func ys

-- A handler, where there is one, that keeps what holds of its object.
abbrev pub Keeps {ℓ κ} : {T : Type ℓ} → (T → Type κ) → Option (Handler T) → Type (ℓ ⊔ κ)
Keeps {T = T} P func =
    (handler : Handler T) → func ≡ some handler → (obj : T) (b : Bool) → P obj → P (handler obj b).1

module _ {ℓ κ} {T : Type ℓ} (P : T → Type κ) where
  at_cut : (b : Bool) (x y : Bool × HandlerResult × T) → P x.2 → P y.2 → P (if b then x else y).2
  at_cut true x y h k = h
  at_cut false x y h k = k

  -- What every handler of a chain keeps, the chain keeps.
  pub before_multi-Keeps :
      (obj : T) (funcs : List (Option (Handler T))) (initial : Bool)
      → All (Keeps P) funcs
      → P obj
      → P (before_multi obj funcs initial).2
  unfolding before_multi
  before_multi-Keeps obj [] initial keeps h = h
  before_multi-Keeps obj (none ∷ funcs) initial (k, keeps) h =
      before_multi-Keeps obj funcs initial keeps h
  before_multi-Keeps obj (some func ∷ funcs) initial (k, keeps) h =
      let kept : P (func obj initial).1 = k func refl obj initial h in
      at_cut (is_final (func obj initial).0)
        (passes_after (func obj initial).0 initial, stops, (func obj initial).1)
        (before_multi (func obj initial).1 funcs (passes_after (func obj initial).0 initial)) kept
        (before_multi-Keeps (func obj initial).1 funcs (passes_after (func obj initial).0 initial)
          keeps kept)

  pub Keeps-none : Keeps P none
  Keeps-none handler e obj b h = absurd (ground arith)

  after_some : T → Bool → Option (Handler T) → T
  after_some obj b none = obj
  after_some obj b (some func) = (func obj b).1

  pub Keeps-some :
      (func : Handler T) → ((obj : T) (b : Bool) → P obj → P (func obj b).1) → Keeps P (some func)
  unfolding after_some
  Keeps-some func k handler e obj b h =
      subst (λ (o : Option (Handler T)). P (after_some obj b o)) e (k obj b h)
