-- ===== src/Iface/Table.antt =====
-- The connection table of tcp-core/src/iface.rs, looked up after an update.
use ferrumnet.Prelude.{◌≡◌, refl, arith, true, false, List, [], ◌∷◌, some, Bool-cases, inl, inr}
use ferrumnet.Datagram.{Endpoint, same_endpoint}
use ferrumnet.Iface.{find, put}

pub same_endpoint_refl : (x : Endpoint) → same_endpoint x x ≡ true
same_endpoint_refl x = ground arith

-- Keys that are the same agree on every other key.
same_endpoint_other :
    (x y z : Endpoint)
    → same_endpoint x y ≡ true
    → same_endpoint y z ≡ false
    → same_endpoint x z ≡ false
same_endpoint_other x y z h k = ground arith

module _ {V : Type 0} where
  pub find-put :
      (key : Endpoint) (v : V) (l : List (Endpoint × V)) → find key (put key v l) ≡ some v
  unfolding find put
  find-put key v [] = rw (same_endpoint_refl key) refl
  find-put key v ((k, w) ∷ l) = elim (Bool-cases (same_endpoint k key)) [
    | inl e ↦ rw (e, e) refl
    | inr e ↦ rw (e, e) (find-put key v l)
  ]

  pub find-put_other :
      (key other : Endpoint) (v : V) (l : List (Endpoint × V))
      → same_endpoint key other ≡ false
      → find other (put key v l) ≡ find other l
  unfolding find put
  find-put_other key other v [] h = rw h refl
  find-put_other key other v ((k, w) ∷ l) h = elim (Bool-cases (same_endpoint k key)) [
    | inl e ↦ rw (e, same_endpoint_other k key other e h) refl
    | inr e ↦ rw (e, find-put_other key other v l h) refl
  ]
