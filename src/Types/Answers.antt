-- ===== src/Types/Answers.antt =====
-- The comparison of types without sharing, and what it means that a call answers as it does.
use valutron.Prelude.{ℕ, zero, suc, ◌≡◌, refl, Bool, true, false, ◌==◌, if◌then◌else◌}
use valutron.Outcome.{Outcome, done, dies, runs_on}
use valutron.Types.Store.{Store, M, pure, ◌>>=◌, >>=-done}
use valutron.Types.Terms.{Term, Terms, inst, no_terms, more_terms, Agree, Agree-refl, Agree-trans}
use valutron.Types.Hierarchy.{Hierarchy}
use valutron.Types.Supertypes.{lifted}

abbrev pub and_then : Outcome Bool → (Bool → Outcome Bool) → Outcome Bool
and_then (done b) k = k b
and_then dies k = dies
and_then runs_on k = runs_on

-- Arguments against arguments, by a comparison.
unfoldable pub each_below : (Term → Term → Outcome Bool) → Terms → Terms → Outcome Bool
each_below f no_terms us = done true
each_below f (more_terms t ts) no_terms = dies
each_below f (more_terms t ts) (more_terms u us) =
    let rest = each_below f ts us in and_then (f t u) (λ b. if b then rest else done false)

-- The comparison of closed types. Instances of one class are compared by their arguments; else the supertype is
-- tried, as far as there is one.
unfoldable pub below : Hierarchy → ℕ → Term → Term → Outcome Bool
unfolding each_below
below h zero t u = runs_on
below h (suc n) (inst c ts) (inst d us) =
    let up = below h n (lifted h c ts) (inst d us) in
    if c == d then each_below (below h n) ts us else if h.super_of c == 0 then done false else up
below h (suc n) t u = done true

-- A call that makes nothing but new objects, and answers this.
abbrev pub Answers : Store → Outcome (Bool × Store) → Outcome Bool → Type 0
Answers s r (done b) = (s' : Store) × (r ≡ done (b, s')) × Agree s s'
Answers s r dies = r ≡ dies
Answers s r runs_on = r ≡ runs_on

pub Answers-after :
    {s s' : Store} (r : Outcome (Bool × Store)) (o : Outcome Bool)
    → Agree s s'
    → Answers s' r o
    → Answers s r o
Answers-after r (done b) g (s'', e, g') = (s'', e, Agree-trans g g')
Answers-after r dies g e = e
Answers-after r runs_on g e = e

pub Answers-eq :
    (s : Store) {r r' : Outcome (Bool × Store)} (o : Outcome Bool)
    → r ≡ r'
    → Answers s r' o
    → Answers s r o
Answers-eq s o e a = rw e a

pub Answers-if :
    (s : Store) (x y : Bool) (m m' : M Bool) (o o' : Outcome Bool)
    → x ≡ y
    → (y ≡ true → Answers s (m s) o)
    → (y ≡ false → Answers s (m' s) o')
    → Answers s ((if x then m else m') s) (if y then o else o')
Answers-if s true true m m' o o' e t f = t refl
Answers-if s false false m m' o o' e t f = f refl
Answers-if s true false m m' o o' e t f = absurd (cc)
Answers-if s false true m m' o o' e t f = absurd (cc)

pub Answers-and_then :
    (s : Store) (m : M Bool) (k : Bool → M Bool) (o : Outcome Bool) (g : Bool → Outcome Bool)
    → Answers s (m s) o
    → ((b : Bool) (s' : Store) → Agree s s' → Answers s' (k b s') (g b))
    → Answers s ((m >>= k) s) (and_then o g)
Answers-and_then s m k (done b) g (s', e, same) next =
    Answers-eq s (g b) (>>=-done m k e) (Answers-after (k b s') (g b) same (next b s' same))
Answers-and_then s m k dies g e next = rw (e, ◌>>=◌)
Answers-and_then s m k runs_on g e next = rw (e, ◌>>=◌)

pub Answers-branch :
    (s : Store) (b : Bool) (m : M Bool) (o : Outcome Bool)
    → Answers s (m s) o
    → Answers s ((if b then m else pure false) s) (if b then o else done false)
Answers-branch s true m o h = h
Answers-branch s false m o h = (s, refl, Agree-refl s)
