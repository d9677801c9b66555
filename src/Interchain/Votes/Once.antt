-- ===== src/Interchain/Votes/Once.antt =====
-- The group of the votes, whatever the order in which its goroutines run.
use echofi.Prelude.{
  ℕ, ◌+◌, ◌<◌, ◌≡◌, refl, sym, ap, ◌∙◌, ◌↔◌, ◌⊎◌, inl, inr, Bool, true, false, List, [], ◌∷◌,
  String, Option, none, some, if◌then◌else◌, str_eq, eq_iff, arith, All, Bool-cases,
}
use echofi.Interchain.{ChainNode, Chain}
use echofi.Interchain.Votes.{
  Vote, Group, keep_first, Pick, here, there, new_group, launch, vote_on, finish, Step, launches,
  votes, finishes, Reachable, starts, continues, IsFinished,
}

abbrev pub count_if : {A : Type 0} → (A → Bool) → List A → ℕ
count_if p [] = 0
count_if p (x ∷ xs) = (if p x then 1 else 0) + count_if p xs

abbrev pub validators : List ChainNode → List ChainNode
validators [] = []
validators (n ∷ ns) = if n.validator then n ∷ validators ns else validators ns

abbrev pub Any : {A : Type 0} → (A → Type 0) → List A → Type 0
Any P [] = ⊥
Any P (x ∷ xs) = P x ⊎ Any P xs

-- The first error of a list that has the last vote first.
abbrev first_error : List Vote → Option String
first_error [] = none
first_error (r ∷ rs) = keep_first (first_error rs) r.1

abbrev is_error : Option String → Bool
is_error none = false
is_error (some _) = true

abbrev is_text : String → Option String → Bool
is_text e none = false
is_text e (some x) = str_eq x e

Pick-count_if :
    {A : Type 0} {a : A} {xs rest : List A} (p : A → Bool)
    → Pick a xs rest
    → count_if p xs ≡ (if p a then 1 else 0) + count_if p rest
Pick-count_if p here = refl
Pick-count_if p (there h) = omega (arith, Pick-count_if p h)

count-validators :
    {xs : List ChainNode} {n : ChainNode} {ns : List ChainNode} (p : ChainNode → Bool)
    → xs ≡ n ∷ ns
    → (b : Bool) → n.validator ≡ b
    → count_if p (validators xs)
      ≡ (if b then (if p n then 1 else 0) else 0) + count_if p (validators ns)
count-validators {n = n} p start b valid = rw (start) (ground (arith, valid))

abbrev errors : List Vote → ℕ
errors = count_if (λ (r : Vote). is_error r.1)

abbrev texts : String → List Vote → ℕ
texts e = count_if (λ (r : Vote). is_text e r.1)

first_error-none : (rs : List Vote) → (first_error rs ≡ none) ↔ (errors rs ≡ 0)
first_error-none [] = (λ _. refl, λ _. refl)
first_error-none ((n, none) ∷ rs) = ground (arith, first_error-none rs)
first_error-none ((n, some e) ∷ rs) = ground (arith, first_error-none rs)

All-none : (rs : List Vote) → errors rs ≡ 0 → All (λ (r : Vote). r.1 ≡ none) rs
All-none [] h = tt
All-none ((n, none) ∷ rs) h = (refl, All-none rs (omega (arith, h)))
All-none ((n, some e) ∷ rs) h = absurd (omega (arith, h))

no_errors : (rs : List Vote) → All (λ (r : Vote). r.1 ≡ none) rs → errors rs ≡ 0
no_errors [] h = refl
no_errors ((n, none) ∷ rs) h = omega (arith, no_errors rs h.1)
no_errors ((n, some e) ∷ rs) h = absurd (cc (h.0))

first_error-some : (rs : List Vote) (e : String) → first_error rs ≡ some e → 0 < texts e rs
first_error-some [] e h = absurd (cc)
first_error-some ((n, none) ∷ rs) e h = ground (arith, first_error-some rs e)
first_error-some ((n, some x) ∷ rs) e h = ground (arith, first_error-some rs e, eq_iff x e)

any_text : (rs : List Vote) (e : String) → 0 < texts e rs → Any (λ (r : Vote). r.1 ≡ some e) rs
any_text [] e h = absurd (omega arith)
any_text ((n, none) ∷ rs) e h = inr (any_text rs e (omega (arith, h)))
any_text ((n, some x) ∷ rs) e h = elim (Bool-cases (str_eq x e)) [
  | inl same ↦ inl (ap some ((eq_iff x e).0 same))
  | inr differs ↦ inr (any_text rs e (ground (arith, h, differs)))
]

-- What a caller of the vote may rely on: `ran` is what came of the transactions, and `err` what
-- the call returns.
pub record IsVote (nodes : List ChainNode) (ran : List Vote) (err : Option String) : Type 0 where
  pub each_once :
      (p : ChainNode → Bool) → count_if (λ (r : Vote). p r.0) ran ≡ count_if p (validators nodes)
  pub passes : (err ≡ none) ↔ All (λ (r : Vote). r.1 ≡ none) ran
  pub is_returned : (e : String) → err ≡ some e → Any (λ (r : Vote). r.1 ≡ some e) ran

module _ (c : Chain) (proposal_id : ℕ) (vote : String) where
  -- Every validator is a node that is still to be started, that waits, or that has run; an outcome
  -- is on its way to the group or has reached it.
  record Inv (g : Group c) : Type 0 where
    bag :
        (p : ChainNode → Bool)
        → count_if (λ (r : Vote). p r.0) g.ran
            + count_if p g.waiting
            + count_if p (validators g.to_start)
          ≡ count_if p (validators c.nodes)
    outcomes : (q : Vote → Bool) → count_if q g.ran ≡ count_if q g.returned + count_if q g.returning
    first : g.err ≡ first_error g.returned

  launched-Inv :
      {g : Group c}
      → Inv g
      → (n : ChainNode) (ns : List ChainNode) → g.to_start ≡ n ∷ ns
      → (b : Bool) → n.validator ≡ b
      → Inv (
          if b
          then record g { to_start = ns; waiting = n ∷ g.waiting }
          else record g { to_start = ns })
  launched-Inv inv n ns start true valid = record {
    bag = λ p. omega (arith, inv.bag p, count-validators p start true valid);
    outcomes = inv.outcomes;
    first = inv.first;
  }
  launched-Inv inv n ns start false other = record {
    bag = λ p. omega (arith, inv.bag p, count-validators p start false other);
    outcomes = inv.outcomes;
    first = inv.first;
  }

  Step-Inv : {g g' : Group c} → Inv g → Step c proposal_id vote g g' → Inv g'
  unfolding launch vote_on finish
  Step-Inv inv (launches n ns start) = launched-Inv inv n ns start n.validator refl
  Step-Inv inv (votes n rest pick) = record {
    bag = λ p. omega (arith, inv.bag p, Pick-count_if p pick);
    outcomes = λ q. omega (arith, inv.outcomes q);
    first = inv.first;
  }
  Step-Inv inv (finishes r rest pick) = record {
    bag = inv.bag;
    outcomes = λ q. omega (arith, inv.outcomes q, Pick-count_if q pick);
    first = rw (inv.first) refl;
  }

  Reachable-Inv : (w : c.World) {g : Group c} → Reachable c proposal_id vote w g → Inv g
  unfolding new_group
  Reachable-Inv w starts = record { bag = λ p. omega arith; outcomes = λ q. refl; first = refl }
  Reachable-Inv w (continues run step) = Step-Inv (Reachable-Inv w run) step

  -- In whatever order the goroutines run, when the vote is over every validator of the chain has
  -- run one transaction and no other node has; the result is nil exactly if every transaction
  -- gave nil, and an error that it returns is one of theirs.
  pub Reachable-IsVote :
      (w : c.World) (g : Group c)
      → Reachable c proposal_id vote w g
      → IsFinished c proposal_id vote g
      → IsVote c.nodes g.ran g.err
  Reachable-IsVote w g run done =
      let inv = Reachable-Inv w run in
      let same_counts : (q : Vote → Bool) → count_if q g.ran ≡ count_if q g.returned =
        λ q. omega (arith, inv.outcomes q, ap (count_if q) done.none_returning) in
      record {
        each_once = λ p. omega (
          arith,
          inv.bag p,
          ap (count_if p) done.none_waiting,
          ap (λ ns. count_if p (validators ns)) done.none_to_start,
        );
        passes = (
          λ e. All-none g.ran (
              omega (
                arith,
                same_counts (λ (r : Vote). is_error r.1),
                (first_error-none g.returned).0 (sym inv.first ∙ e),
              )),
          λ all.
              inv.first
              ∙ (first_error-none g.returned).1
                  (omega (arith, same_counts (λ (r : Vote). is_error r.1), no_errors g.ran all)),
        );
        is_returned = λ e h. any_text g.ran e (
            omega (
              arith,
              same_counts (λ (r : Vote). is_text e r.1),
              first_error-some g.returned e (sym inv.first ∙ h),
            ));
      }
