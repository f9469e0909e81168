-- ===== src/Methods.antt =====
-- Method lookup in cmd/vm/Interpreter.cc: lookupMethod, and lookupCached with the cache of a send. A
-- method, a class and a selector are addresses, 0 is nil; the fields of the classes are a function.
pub mod Search
pub mod Cached
use valutron.Prelude.{
  ℕ, zero, suc, Bool, true, false, not, ◌&&◌, ◌||◌, Option, none, some, ◌==◌, if◌then◌else◌,
}
use valutron.Outcome.{Outcome, done, dies, runs_on, ◌>>=◌}
use valutron.Word.{is_nil, is_smi}
use valutron.Dictionary.{Obj, Table, symbol_lookup}

-- `methods` is none where the class has no dictionary.
pub record Class : Type 0 where
  pub methods : Option Table
  pub super_class : Obj

abbrev pub Classes : Type 0
Classes = Obj → Class

-- `CacheOopDesc`.
pub record Cache : Type 0 where
  pub selector : Obj
  pub cls : Obj
  pub method : Obj
  pub version : ℕ

module _ (hash_code : Obj → ℕ) (classes : Classes) where
  abbrev pub in_methods : Obj → Option Table → Obj
  in_methods selector none = 0
  in_methods selector (some methods) = symbol_lookup hash_code selector methods

  -- The method that a class has itself, nil if it has none.
  unfoldable pub own_method : Obj → Obj → Obj
  own_method selector cls = in_methods selector (classes cls).methods

  unfoldable pub lookup_method : ℕ → Obj → Obj → Outcome Obj
  unfolding own_method
  lookup_method zero start_cls selector = runs_on
  lookup_method (suc fuel) start_cls selector =
      let meth = own_method selector start_cls in
      let cls = (classes start_cls).super_class in
      let rest = lookup_method fuel cls selector in
      if is_nil start_cls || is_smi start_cls
      then dies
      else if not (is_nil meth)
      then done meth
      else if is_nil cls || (cls == start_cls)
      then dies
      else rest

  unfoldable pub lookup_cached : ℕ → Obj → Cache → Outcome (Obj × Cache)
  unfolding lookup_method
  lookup_cached fuel cls cache =
      if not (is_nil cache.method) && (cache.cls == cls) && (cache.version == 5)
      then done (cache.method, cache)
      else (do
        meth ← lookup_method fuel cls cache.selector
        done (meth, record cache { method = meth; cls = cls; version = 5 }))
