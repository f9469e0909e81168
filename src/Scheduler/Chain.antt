-- ===== src/Scheduler/Chain.antt =====
-- The processes of a list, in order: a chain of links that ends in nil and meets no process twice.
use valutron.Prelude.{
  ℕ, zero, suc, ◌<◌, ◌≡◌, ◌≢◌, refl, sym, Bool, true, false, List, [], ◌∷◌, ◌++◌, arith, length,
  ◌==◌, if◌then◌else◌,
}
use valutron.Scheduler.{Proc, Links, write, done, dies, last_of, node_before, contained_in_list}

abbrev pub Outside : Proc → List Proc → Type 0
Outside p [] = Unit
Outside p (x ∷ xs) = (p ≢ x) × Outside p xs

abbrev pub IsChain : Links → Proc → List Proc → Type 0
IsChain link p [] = p ≡ 0
IsChain link p (x ∷ xs) = (p ≡ x) × (x ≢ 0) × Outside x xs × IsChain link (link x) xs

-- A write outside the chain leaves it.
pub IsChain-write :
    (link : Links) (p q r : Proc) (xs : List Proc)
    → Outside p xs
    → IsChain link r xs
    → IsChain (write link p q) r xs
IsChain-write link p q r [] out c = c
IsChain-write link p q r (x ∷ xs) (ne, out) (e, nz, apart, c) =
    let same : write link p q x ≡ link x = ground arith in
    (e, nz, apart, rw same (IsChain-write link p q (link x) xs out c))

pub Outside-append : (p q : Proc) (xs : List Proc) → Outside p xs → p ≢ q → Outside p (xs ++ q ∷ [])
Outside-append p q [] out ne = (ne, tt)
Outside-append p q (x ∷ xs) out ne = (out.0, Outside-append p q xs out.1 ne)

pub Outside-remove :
    (p q : Proc) (ys zs : List Proc) → Outside p (ys ++ q ∷ zs) → (p ≢ q) × Outside p (ys ++ zs)
Outside-remove p q [] zs out = out
Outside-remove p q (y ∷ ys) zs out =
    let rest = Outside-remove p q ys zs out.1 in (rest.0, (out.0, rest.1))

-- The end of a chain that is not empty: it is found, it lies on the chain, and a link from it to a new
-- process makes that the end.
pub last_of-append :
    (fuel : ℕ) (link : Links) (p x : Proc) (xs : List Proc) (obj : Proc)
    → IsChain link p (x ∷ xs)
    → Outside obj (x ∷ xs)
    → obj ≢ 0
    → link obj ≡ 0
    → length xs < fuel
    → (last : Proc) × (last_of fuel link p ≡ done last)
      × ((z : Proc) → Outside z (x ∷ xs) → z ≢ last)
      × IsChain (write link last obj) p (x ∷ xs ++ obj ∷ [])
unfolding last_of
last_of-append zero link p x xs obj c out nz free f = absurd (omega arith)
last_of-append (suc fuel) link p x [] obj c out nz free f =
    (x, ground arith, λ z o. o.0, ground arith)
last_of-append (suc fuel) link p x (y ∷ ys) obj (e, nx, apart, c) (ne, out) nz free f =
    let (last, found, inside, chain) =
      last_of-append fuel link (link x) y ys obj c out nz free (omega arith) in
    let other = inside x apart in
    let same : write link last obj x ≡ link x = ground arith in
    (
      last,
      ground arith,
      λ z o. inside z o.1,
      (e, nx, Outside-append x obj (y ∷ ys) apart (λ q. ne (sym q)), rw same chain),
    )

-- The node before a process of the chain that is not its head: bypassing the process removes it.
pub node_before-remove :
    (fuel : ℕ) (link : Links) (p y : Proc) (ys : List Proc) (obj : Proc) (zs : List Proc)
    → IsChain link p (y ∷ ys ++ obj ∷ zs)
    → length ys < fuel
    → (node : Proc) × (node_before fuel link obj p ≡ done node)
      × (link node ≡ obj)
      × ((z : Proc) → Outside z (y ∷ ys ++ zs) → z ≢ node)
      × IsChain (write link node (link obj)) p (y ∷ ys ++ zs)
unfolding node_before
node_before-remove zero link p y ys obj zs c f = absurd (omega arith)
node_before-remove (suc fuel) link p y [] obj zs (e, ny, apart, (eo, nz, apart', c)) f =
    let skip : write link y (link obj) y ≡ link obj = ground arith in
    (
      y,
      ground arith,
      ground arith,
      λ z o. o.0,
      (e, ny, apart.1, rw skip (IsChain-write link y (link obj) (link obj) zs apart.1 c)),
    )
node_before-remove (suc fuel) link p y (x ∷ ys) obj zs (e, ny, apart, c) f =
    let (node, found, before, inside, chain) =
      node_before-remove fuel link (link y) x ys obj zs c (omega arith) in
    let (not_obj, apart') = Outside-remove y obj (x ∷ ys) zs apart in
    let other = inside y apart' in
    let same : write link node (link obj) y ≡ link y = ground arith in
    let next_ne = (Outside-remove x obj ys zs c.2).0 in
    (node, ground arith, before, λ z o. inside z o.1, (e, ny, apart', rw same chain))

unfoldable pub contains : Proc → List Proc → Bool
contains obj [] = false
contains obj (x ∷ xs) = if x == obj then true else contains obj xs

pub contained_in_list-contains :
    (fuel : ℕ) (link : Links) (obj p : Proc) (xs : List Proc)
    → IsChain link p xs
    → length xs < fuel
    → contained_in_list fuel link obj p ≡ done (contains obj xs)
unfolding contained_in_list contains
contained_in_list-contains zero link obj p xs c f = absurd (omega arith)
contained_in_list-contains (suc fuel) link obj p [] c f = ground arith
contained_in_list-contains (suc fuel) link obj p (x ∷ xs) (e, nx, apart, c) f =
    ground (arith, contained_in_list-contains fuel link obj (link x) xs c)

pub not-contains : (obj : Proc) (xs : List Proc) → Outside obj xs → contains obj xs ≡ false
unfolding contains
not-contains obj [] out = refl
not-contains obj (x ∷ xs) out = ground (arith, not-contains obj xs out.1)

pub contains-append : (obj : Proc) (ys zs : List Proc) → contains obj (ys ++ obj ∷ zs) ≡ true
unfolding contains
contains-append obj [] zs = ground arith
contains-append obj (y ∷ ys) zs = ground (arith, contains-append obj ys zs)

-- The search for a process that is not on the chain runs into its end.
pub node_before-dies :
    (fuel : ℕ) (link : Links) (p x : Proc) (xs : List Proc) (obj : Proc)
    → IsChain link p (x ∷ xs)
    → Outside obj (x ∷ xs)
    → obj ≢ 0
    → length xs < fuel
    → node_before fuel link obj p ≡ dies
unfolding node_before
node_before-dies zero link p x xs obj c out nz f = absurd (omega arith)
node_before-dies (suc fuel) link p x [] obj c out nz f = ground arith
node_before-dies (suc fuel) link p x (y ∷ ys) obj (e, nx, apart, c) (ne, out) nz f =
    let rest = node_before-dies fuel link (link x) y ys obj c out nz (omega arith) in ground arith

-- A process of the chain is not nil, and occurs in it once.
pub IsChain-once :
    (link : Links) (r : Proc) (ys : List Proc) (p : Proc) (zs : List Proc)
    → IsChain link r (ys ++ p ∷ zs)
    → (p ≢ 0) × Outside p (ys ++ zs)
IsChain-once link r [] p zs (e, nz, apart, c) = (nz, apart)
IsChain-once link r (y ∷ ys) p zs (e, nz, apart, c) =
    let (ne, rest) = IsChain-once link (link y) ys p zs c in
    (ne, (λ q. (Outside-remove y p ys zs apart).0 (sym q), rest))
