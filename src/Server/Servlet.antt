-- ===== src/Server/Servlet.antt =====
-- `Servlet` of include/rpc/server/reqeust.hpp and request.cpp: the key of a request, and the order
-- by which `std::map` keeps requests; the map itself as a list of entries.
use muse_rpc.Common.{
  ℕ, ◌≡◌, refl, Bool, true, false, not, ◌&&◌, List, [], ◌∷◌, Option, some, none, ltb, ◌==◌,
  if◌then◌else◌, arith, ◌↔◌, ◌≢◌,
}

pub record Servlet : Type 0 where
  pub request_id : ℕ
  pub client_port : ℕ
  pub client_ip_address : ℕ

-- `operator <`.
unfoldable pub less : Servlet → Servlet → Bool
less me other =
    if not (me.request_id == other.request_id)
    then ltb me.request_id other.request_id
    else if not (me.client_ip_address == other.client_ip_address)
    then ltb other.client_ip_address me.client_ip_address
    else ltb other.client_port me.client_port

-- `std::map` takes two keys to be the same if neither is less than the other.
unfoldable pub same_key : Servlet → Servlet → Bool
unfolding less
same_key a b = not (less a b) && not (less b a)

less_irrefl : (a : Servlet) → less a a ≡ false
unfolding less
less_irrefl a = ground arith

less_trans : (a b c : Servlet) → less a b ≡ true → less b c ≡ true → less a c ≡ true
unfolding less
less_trans a b c h k = ground arith

less_total : (a b : Servlet) → less a b ≡ false → less b a ≡ false → a ≡ b
unfolding less
less_total a b h k = ground arith

-- The order is strict, transitive and total, so the map tells two servlets apart exactly when a
-- field differs.
pub less_strict_order :
    (a b c : Servlet)
    → (less a a ≡ false)
      × (less a b ≡ true → less b c ≡ true → less a c ≡ true)
      × ((same_key a b ≡ true) ↔ (a ≡ b))
unfolding same_key
less_strict_order a b c = (less_irrefl a, less_trans a b c, (there, back))
  where
    there : same_key a b ≡ true → a ≡ b
    there h = less_total a b (ground arith) (ground arith)

    back : a ≡ b → same_key a b ≡ true
    back e = rw (e, less_irrefl b)

pub same_key_iff : (a b : Servlet) → (same_key a b ≡ true) ↔ (a ≡ b)
same_key_iff a b = (less_strict_order a b a).2

pub same_key_refl : (a : Servlet) → same_key a a ≡ true
same_key_refl a = (same_key_iff a a).1 refl

-- `std::map<Servlet, V>` as its entries.
module _ {ℓ} {V : Type ℓ} where
  unfoldable pub find : List (Servlet × V) → Servlet → Option V
  find [] k = none
  find ((j, v) ∷ entries) k = if same_key j k then some v else find entries k

  -- Writing through the iterator that `find` returned.
  unfoldable pub modify : List (Servlet × V) → Servlet → V → List (Servlet × V)
  modify [] k v = []
  modify ((j, w) ∷ entries) k v =
      if same_key j k then (j, v) ∷ entries else (j, w) ∷ modify entries k v

  -- `emplace` inserts unless the key is present.
  unfoldable pub emplace : List (Servlet × V) → Servlet → V → List (Servlet × V)
  unfolding find
  emplace entries k v = elim (find entries k) [ some w ↦ entries | none ↦ (k, v) ∷ entries ]

  unfoldable pub erase : List (Servlet × V) → Servlet → List (Servlet × V)
  erase [] k = []
  erase ((j, w) ∷ entries) k = if same_key j k then erase entries k else (j, w) ∷ erase entries k

module _ {ℓ} {V : Type ℓ} where
  pub find-modify_self :
      (entries : List (Servlet × V)) (k : Servlet) (v w : V)
      → find entries k ≡ some w
      → find (modify entries k v) k ≡ some v
  unfolding find modify
  find-modify_self [] k v w h = cc
  find-modify_self ((j, u) ∷ entries) k v w h = ground (arith, find-modify_self entries k v w)

  -- A key other than the one written keeps its entry.
  pub find-modify_ne :
      (entries : List (Servlet × V)) (k l : Servlet) (v : V)
      → k ≢ l
      → find (modify entries k v) l ≡ find entries l
  unfolding find modify
  find-modify_ne [] k l v h = refl
  find-modify_ne ((j, u) ∷ entries) k l v h =
      ground (arith, find-modify_ne entries k l v h, same_key_iff j k, same_key_iff j l)

  pub find-emplace_self :
      (entries : List (Servlet × V)) (k : Servlet) (v : V)
      → find entries k ≡ none
      → find (emplace entries k v) k ≡ some v
  unfolding find emplace
  find-emplace_self entries k v h = ground (arith, same_key_refl k)

  pub find-emplace_ne :
      (entries : List (Servlet × V)) (k l : Servlet) (v : V)
      → k ≢ l
      → find (emplace entries k v) l ≡ find entries l
  unfolding find emplace
  find-emplace_ne entries k l v h = ground (arith, same_key_iff k l)

  pub find-erase_self :
      (entries : List (Servlet × V)) (k : Servlet) → find (erase entries k) k ≡ none
  unfolding find erase
  find-erase_self [] k = refl
  find-erase_self ((j, u) ∷ entries) k = ground (arith, find-erase_self entries k)

  pub find-erase_ne :
      (entries : List (Servlet × V)) (k l : Servlet)
      → k ≢ l
      → find (erase entries k) l ≡ find entries l
  unfolding find erase
  find-erase_ne [] k l h = refl
  find-erase_ne ((j, u) ∷ entries) k l h =
      ground (arith, find-erase_ne entries k l h, same_key_iff j k, same_key_iff j l)
