-- ===== src/Methods/Search.antt =====
-- lookupMethod of cmd/vm/Interpreter.cc against a search through a list of classes.
use valutron.Prelude.{
  ℕ, zero, suc, ◌≤◌, ◌≡◌, ◌≢◌, ◌⊎◌, false, List, [], ◌∷◌, length, arith, if◌then◌else◌,
}
use valutron.Outcome.{Outcome, done, dies}
use valutron.Word.{is_nil, is_smi}
use valutron.Dictionary.{Obj}
use valutron.Methods.{Classes, own_method, lookup_method}

-- The classes from `cls` up; the topmost has no superclass, or is its own.
abbrev pub IsAncestry : Classes → Obj → List Obj → Type 0
IsAncestry classes cls [] = ⊥
IsAncestry classes cls (c ∷ []) =
    (c ≡ cls)
    × (is_nil cls ≡ false)
    × (is_smi cls ≡ false)
    × (((classes cls).super_class ≡ 0) ⊎ ((classes cls).super_class ≡ cls))
IsAncestry classes cls (c ∷ d ∷ cs) =
    (c ≡ cls)
    × (is_nil cls ≡ false)
    × (is_smi cls ≡ false)
    × ((classes cls).super_class ≢ 0)
    × ((classes cls).super_class ≢ cls)
    × IsAncestry classes (classes cls).super_class (d ∷ cs)

module _ (hash_code : Obj → ℕ) (classes : Classes) (selector : Obj) where
  -- The method of the first of these classes that has one of its own.
  unfoldable pub first_method : List Obj → Outcome Obj
  first_method [] = dies
  first_method (c ∷ cs) =
      let meth = own_method hash_code classes selector c in
      if is_nil meth then first_method cs else done meth

  -- If the superclasses of a class end, and the fuel is no less than their number with the class, then
  -- `lookupMethod` answers the method of the first of them that has one, and stops the machine if none has.
  pub lookup_method-first_method :
      (fuel : ℕ) (cls : Obj) (cs : List Obj)
      → IsAncestry classes cls cs
      → length cs ≤ fuel
      → lookup_method hash_code classes fuel cls selector ≡ first_method cs
  unfolding lookup_method first_method is_nil
  lookup_method-first_method fuel cls [] h f = absurd h
  lookup_method-first_method zero cls (c ∷ cs) h f = absurd (omega arith)
  lookup_method-first_method (suc fuel) cls (c ∷ []) h f = ground arith
  lookup_method-first_method (suc fuel) cls (c ∷ d ∷ cs) h f =
      ground (arith, lookup_method-first_method fuel (classes cls).super_class (d ∷ cs))

  -- An answer is never nil.
  pub lookup_method-ne_nil :
      (fuel : ℕ) (cls meth : Obj)
      → lookup_method hash_code classes fuel cls selector ≡ done meth
      → is_nil meth ≡ false
  unfolding lookup_method
  lookup_method-ne_nil zero cls meth h = absurd (cc h)
  lookup_method-ne_nil (suc fuel) cls meth h =
      ground (arith, lookup_method-ne_nil fuel (classes cls).super_class meth)
