-- ===== src/Types/Terms.antt =====
-- Types without sharing: terms over classes and type variables, and what it means that an object of the store
-- is such a type.
use valutron.Prelude.{ℕ, suc, ◌+◌, ◌≤◌, ◌<◌, ◌≡◌, refl, ap, ◌∙◌, List, [], ◌∷◌, arith}
use valutron.Types.Store.{Addr, Kind, Ty, Store}

mutual
  pub data Term : Type 0 where
    inst : Addr → Terms → Term
    var : Addr → Term
    any : Term

  pub data Terms : Type 0 where
    no_terms : Terms
    more_terms : Term → Terms → Terms

-- What a part of the program that only makes new objects leaves as it was.
pub record Agree (s s' : Store) : Type 0 where
  pub grows : s.next ≤ s'.next
  pub same_types : (p : Addr) → p < s.next → s'.types p ≡ s.types p
  pub same_blocks : (p : Addr) → p < s.next → s'.blocks p ≡ s.blocks p
  pub same_decls : (p : Addr) → p < s.next → s'.decls p ≡ s.decls p
  pub same_classes : (p : Addr) → s'.classes p ≡ s.classes p
  pub same_complaints : s'.complaints ≡ s.complaints

pub Agree-refl : (s : Store) → Agree s s
Agree-refl s = record {
  grows = omega arith;
  same_types = λ p h. refl;
  same_blocks = λ p h. refl;
  same_decls = λ p h. refl;
  same_classes = λ p. refl;
  same_complaints = refl;
}

pub Agree-trans : {s t u : Store} → Agree s t → Agree t u → Agree s u
Agree-trans a b = record {
  grows = omega (arith, a.grows, b.grows);
  same_types = λ p h. b.same_types p (omega (arith, a.grows)) ∙ a.same_types p h;
  same_blocks = λ p h. b.same_blocks p (omega (arith, a.grows)) ∙ a.same_blocks p h;
  same_decls = λ p h. b.same_decls p (omega (arith, a.grows)) ∙ a.same_decls p h;
  same_classes = λ p. b.same_classes p ∙ a.same_classes p;
  same_complaints = b.same_complaints ∙ a.same_complaints;
}

-- The object at an address is an instance type, a type variable or `id`, with every object of it among those
-- that are made and that `P` holds of.
abbrev mutual
  pub Denotes : (Addr → Type 0) → Store → Term → Addr → Type 0
  Denotes P s (inst c ts) a =
      P a
      × (a < s.next)
      × ((s.types a).kind ≡ Kind.resolved_instance)
      × ((s.types a).cls ≡ c)
      × DenoteAll P s ts (s.types a).type_args
  Denotes P s (var d) a =
      P a × (a < s.next) × ((s.types a).kind ≡ Kind.ty_var) × ((s.types a).ty_var_decl ≡ d)
  Denotes P s any a = P a × (a < s.next) × ((s.types a).kind ≡ Kind.id)

  pub DenoteAll : (Addr → Type 0) → Store → Terms → List Addr → Type 0
  DenoteAll P s no_terms [] = Unit
  DenoteAll P s no_terms (a ∷ as') = ⊥
  DenoteAll P s (more_terms t ts) [] = ⊥
  DenoteAll P s (more_terms t ts) (a ∷ as') = Denotes P s t a × DenoteAll P s ts as'

-- A type is still there where the objects that it is made of are the same.
module _ (P Q : Addr → Type 0) (s s' : Store)
    (same : (p : Addr) → p < s.next → P p → Q p × (p < s'.next) × (s'.types p ≡ s.types p)) where
  mutual
    pub Denotes-moves : (t : Term) (a : Addr) → Denotes P s t a → Denotes Q s' t a
    Denotes-moves (inst c ts) a (p, lt, k, e, args) =
        let (q, lt', eq) = same a lt p in
        (
          q,
          lt',
          ap (λ (x : Ty). x.kind) eq ∙ k,
          ap (λ (x : Ty). x.cls) eq ∙ e,
          rw eq (DenoteAll-moves ts (s.types a).type_args args),
        )
    Denotes-moves (var d) a (p, lt, k, e) =
        let (q, lt', eq) = same a lt p in
        (q, lt', ap (λ (x : Ty). x.kind) eq ∙ k, ap (λ (x : Ty). x.ty_var_decl) eq ∙ e)
    Denotes-moves any a (p, lt, k) =
        let (q, lt', eq) = same a lt p in (q, lt', ap (λ (x : Ty). x.kind) eq ∙ k)

    pub DenoteAll-moves :
        (ts : Terms) (as' : List Addr) → DenoteAll P s ts as' → DenoteAll Q s' ts as'
    DenoteAll-moves no_terms [] h = tt
    DenoteAll-moves no_terms (a ∷ as') h = absurd h
    DenoteAll-moves (more_terms t ts) [] h = absurd h
    DenoteAll-moves (more_terms t ts) (a ∷ as') (h, hs) =
        (Denotes-moves t a h, DenoteAll-moves ts as' hs)

pub Denotes-Agree :
    (P : Addr → Type 0) (s s' : Store) (t : Term) (a : Addr)
    → Agree s s'
    → Denotes P s t a
    → Denotes P s' t a
Denotes-Agree P s s' t a g =
    Denotes-moves P P s s' (λ p lt h. (h, omega (arith, g.grows), g.same_types p lt)) t a

pub DenoteAll-Agree :
    (P : Addr → Type 0) (s s' : Store) (ts : Terms) (as' : List Addr)
    → Agree s s'
    → DenoteAll P s ts as'
    → DenoteAll P s' ts as'
DenoteAll-Agree P s s' ts as' g =
    DenoteAll-moves P P s s' (λ p lt h. (h, omega (arith, g.grows), g.same_types p lt)) ts as'

-- The height of a type bounds the fuel for a walk over it.
unfoldable mutual
  pub height : Term → ℕ
  height (inst c ts) = suc (heights ts)
  height (var d) = 1
  height any = 1

  pub heights : Terms → ℕ
  heights no_terms = 0
  heights (more_terms t ts) = height t + heights ts

-- Substitution.
unfoldable mutual
  pub subst_term : (Addr → Term) → Term → Term
  subst_term ρ (inst c ts) = inst c (subst_terms ρ ts)
  subst_term ρ (var d) = ρ d
  subst_term ρ any = any

  pub subst_terms : (Addr → Term) → Terms → Terms
  subst_terms ρ no_terms = no_terms
  subst_terms ρ (more_terms t ts) = more_terms (subst_term ρ t) (subst_terms ρ ts)
