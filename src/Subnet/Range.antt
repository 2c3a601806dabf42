-- ===== src/Subnet/Range.antt =====
-- The subnets of anchor/subnet_service/src/subnet.rs: which they are, and their independence of
-- the order of operators.
use mathlib.Core.List.{Permᴰ, flat_map}
use anchor.Base.{
  ℕ, ◌%◌, ◌≤◌, ◌≡◌, All, true, refl, sym, ap, ◌∙◌, List, ◌∷◌, Option, none, some, leb,
  if◌then◌else◌, arith,
}
use anchor.Fork.{Fork, alan, boole}
use anchor.Ssv.Message.{Bytes}
use anchor.Ssv.Consensus.{Hash256}
use anchor.Ssv.Codec.{to_le}
use anchor.Base.Sets.{contains}
use anchor.Subnet.{min_hash, from_operators}

-- The digest of an operator: of the 8 bytes of its identifier, the lowest first.
abbrev pub digest : (Bytes → Hash256) → ℕ → Hash256
digest sha256 id = sha256 (to_le 8 id)

-- A member whose digest no other member's is below.
pub record IsLeast (sha256 : Bytes → Hash256) (ids : List ℕ) (least : ℕ) : Type 0 where
  pub member : contains ids least ≡ true
  pub below : All (λ id. digest sha256 least ≤ digest sha256 id) ids

-- The subnet under each fork: before Boole of the digest of the 4 low bytes of every identifier in
-- turn, from Boole on of the least digest of a member.
abbrev pub IsSubnet : (Bytes → Hash256) → List ℕ → Fork → ℕ → Type 0
IsSubnet sha256 ids alan subnet = subnet ≡ sha256 (flat_map (to_le 4) ids) % 128
IsSubnet sha256 ids boole subnet =
    (least : ℕ) × IsLeast sha256 ids least × (subnet ≡ digest sha256 least % 128)

min_step : Option Hash256 → Hash256 → Option Hash256
min_step none digest = some digest
min_step (some least) digest = some (if leb least digest then least else digest)

min_hash-step :
    (sha256 : Bytes → Hash256) (o : Option Hash256) (id : ℕ) (ids : List ℕ)
    → min_hash sha256 o (id ∷ ids) ≡ min_hash sha256 (min_step o (sha256 (to_le 8 id))) ids
unfolding min_hash min_step
min_hash-step sha256 none id ids = refl
min_hash-step sha256 (some least) id ids = refl

min_step_comm :
    (o : Option Hash256) (a b : Hash256) → min_step (min_step o a) b ≡ min_step (min_step o b) a
unfolding min_step
min_step_comm none a b = ground arith
min_step_comm (some least) a b = ground arith

min_hash-Perm :
    (sha256 : Bytes → Hash256) (xs ys : List ℕ)
    → Permᴰ xs ys
    → (o : Option Hash256) → min_hash sha256 o xs ≡ min_hash sha256 o ys
min_hash-Perm sha256 _ _ Permᴰ.nil o = refl
min_hash-Perm sha256 _ _ (Permᴰ.cons {a = a} {l₁ = l} {l₂ = m} e p) o =
    min_hash-step sha256 o a l
    ∙ (min_hash-Perm sha256 l m p (min_step o (sha256 (to_le 8 a)))
        ∙ (sym (min_hash-step sha256 o a m) ∙ ap (λ x. min_hash sha256 o (x ∷ m)) e))
min_hash-Perm sha256 _ _ (Permᴰ.swap {a = a} {b = b} {l = l} e f) o =
    let x = sha256 (to_le 8 a) in
    let y = sha256 (to_le 8 b) in
    rw (sym e, sym f)
      (min_hash-step sha256 o a (b ∷ l)
        ∙ (min_hash-step sha256 (min_step o x) b l
            ∙ (ap (λ z. min_hash sha256 z l) (min_step_comm o x y)
                ∙ (sym (min_hash-step sha256 (min_step o y) a l)
                    ∙ sym (min_hash-step sha256 o b (a ∷ l))))))
min_hash-Perm sha256 _ _ (Permᴰ.trans {l₁ = l} {l₂ = m} {l₃ = n} p q) o =
    min_hash-Perm sha256 l m p o ∙ min_hash-Perm sha256 m n q o

-- After the fork Boole the order of the operators does not matter: two lists of the same operators
-- have the same subnet, or both have none.
pub from_operators-Perm :
    (sha256 : Bytes → Hash256) (xs ys : List ℕ) (count : ℕ)
    → Permᴰ xs ys
    → from_operators sha256 xs count ≡ from_operators sha256 ys count
unfolding from_operators
from_operators-Perm sha256 xs ys count p =
    rw (from_operators, min_hash-Perm sha256 xs ys p none) refl
