-- ===== src/Types/Registration.antt =====
-- What the registration of types makes of names.
use valutron.Prelude.{
  ℕ, suc, ◌≡◌, ◌≢◌, refl, ap, ap₂, ◌∙◌, some, none, ◌⊎◌, inl, inr, false, List, [], ◌∷◌, arith,
  length, ◌==◌,
}
use valutron.Outcome.{done, dies}
use valutron.Types.Store.{
  Addr, Kind, Store, TyEnv, M, get, require, lookup_type, update, ◌>>=◌, ◌>>◌, >>=-done, >>=-dies,
}
use valutron.Types.Invocation.{construct_into, construct_by, fresh_args}
use valutron.Types.Register.{resolve_each, resolve_by, resolve_in_ty_env}

-- `constructInto` of an instance type.
fresh_args_wrong :
    (into args : List Addr) (s : Store)
    → into ≢ []
    → length into ≢ length args
    → fresh_args into args s ≡ dies
unfolding fresh_args
fresh_args_wrong [] args s some_args ne = absurd (some_args refl)
fresh_args_wrong (a ∷ into) args s some_args ne =
    let test : (length (a ∷ into) == length args) ≡ false = ground arith in rw test refl

module _ (m a : Addr) (s : Store) (km : (s.types m).kind ≡ Kind.resolved_instance) where
  construct_into_wrong :
      (s.types a).type_args ≢ []
      → length (s.types a).type_args ≢ length (s.types m).type_args
      → construct_into m a s ≡ dies
  unfolding construct_into construct_by
  construct_into_wrong some_args ne =
      ap (λ k. construct_by k (s.types m) (s.types a) a s) km
      ∙ >>=-dies (fresh_args (s.types a).type_args (s.types m).type_args) _
          (fresh_args_wrong (s.types a).type_args (s.types m).type_args s some_args ne)

  constructed : Store
  constructed = record s {
    types = update s.types a (record (s.types a) {
      name = (s.types m).name;
      cls = (s.types m).cls;
      kind = Kind.resolved_instance;
      type_args = [];
    });
  }

  construct_into_plain :
      (s.types a).type_args ≡ []
      → (s.types m).type_args ≡ []
      → construct_into m a s ≡ done (tt, constructed)
  unfolding construct_into construct_by constructed
  construct_into_plain no_args no_params =
      ap (λ k. construct_by k (s.types m) (s.types a) a s) km
      ∙ >>=-done (fresh_args (s.types a).type_args (s.types m).type_args) _
          (ap₂ (λ as' bs. fresh_args as' bs s) no_args no_params)

-- What is left to do for a name, when its type is constructed.
abbrev resolve_args : ℕ → TyEnv → Addr → M (Unit {0})
resolve_args n env a = do s ← get; resolve_each (resolve_in_ty_env n env) (s.types a).type_args

reaches_construct :
    (n : ℕ) (env : TyEnv) (a m : Addr) (s : Store)
    → (s.types a).kind ≡ Kind.ident
    → lookup_type env (s.types a).name ≡ some m
    → (s.types m).kind ≡ Kind.resolved_instance
    → resolve_in_ty_env (suc (suc n)) env a s ≡ (construct_into m a >> resolve_args (suc n) env a) s
unfolding resolve_in_ty_env resolve_by
reaches_construct n env a m s k known km =
    let resolve = resolve_in_ty_env (suc n) in
    let rest : Addr → M (Unit {0}) = λ type. construct_into type a >> resolve_args (suc n) env a in
    ap (λ k. resolve_by resolve env k a s) k
    ∙ >>=-done (require (lookup_type env (s.types a).name)) (λ type. resolve env type >> rest type)
        {s = s} (ap (λ o. require o s) known)
    ∙ >>=-done (resolve env m) (λ u. rest m) {s = s}
        (ap (λ k. resolve_by (resolve_in_ty_env n) env k m s) km)

-- A name of a type that is not found is thrown, and so is one of a class of which the instance type has another
-- number of type arguments than are written, if any are written.
pub resolve_in_ty_env-dies :
    (n : ℕ) (env : TyEnv) (a : Addr) (s : Store)
    → (s.types a).kind ≡ Kind.ident
    → (lookup_type env (s.types a).name ≡ none)
      ⊎ ((m : Addr) × (lookup_type env (s.types a).name ≡ some m)
          × ((s.types m).kind ≡ Kind.resolved_instance)
          × ((s.types a).type_args ≢ [])
          × (length (s.types a).type_args ≢ length (s.types m).type_args))
    → resolve_in_ty_env (suc (suc n)) env a s ≡ dies
unfolding resolve_in_ty_env resolve_by
resolve_in_ty_env-dies n env a s k (inl unknown) =
    ap (λ k. resolve_by (resolve_in_ty_env (suc n)) env k a s) k
    ∙ >>=-dies (require (lookup_type env (s.types a).name))
        (λ type.
          resolve_in_ty_env (suc n) env type
          >> (construct_into type a >> resolve_args (suc n) env a))
        {s = s} (ap (λ o. require o s) unknown)
resolve_in_ty_env-dies n env a s k (inr (m, known, km, some_args, ne)) =
    reaches_construct n env a m s k known km
    ∙ >>=-dies (construct_into m a) (λ u. resolve_args (suc n) env a) {s = s}
        (construct_into_wrong m a s km some_args ne)

-- The name of a class without type parameters, with no type arguments, becomes the instance type of the class, and
-- no other type is changed.
pub resolve_in_ty_env-plain :
    (n : ℕ) (env : TyEnv) (a m : Addr) (s : Store)
    → (s.types a).kind ≡ Kind.ident
    → lookup_type env (s.types a).name ≡ some m
    → (s.types m).kind ≡ Kind.resolved_instance
    → (s.types a).type_args ≡ []
    → (s.types m).type_args ≡ []
    → (s' : Store) × (resolve_in_ty_env (suc (suc n)) env a s ≡ done (tt, s'))
      × ((s'.types a).kind ≡ Kind.resolved_instance)
      × ((s'.types a).cls ≡ (s.types m).cls)
      × ((p : Addr) → p ≢ a → s'.types p ≡ s.types p)
unfolding resolve_each constructed
resolve_in_ty_env-plain n env a m s k known km no_args no_params =
    let no_args_left : ((constructed m a s km).types a).type_args ≡ [] = ground arith in
    (
      constructed m a s km,
      reaches_construct n env a m s k known km
          ∙ >>=-done (construct_into m a) (λ u. resolve_args (suc n) env a) {s = s}
              (construct_into_plain m a s km no_args no_params)
          ∙ ap (λ as'. resolve_each (resolve_in_ty_env (suc n) env) as' (constructed m a s km))
              no_args_left,
      ground arith,
      ground arith,
      λ p ne. ground arith,
    )
