-- ===== src/Tensor/Data/Spaces.antt =====
-- Copies between whole blocks of memory, and the memory of each device.
use mathlib.Core.List.{append-nil}
use scicompute.Base.{
  ◌&&◌, ==_refl, ℕ, zero, suc, ◌+◌, ◌≤◌, ◌≡◌, refl, ap, ◌∙◌, true, false, Bool, Option, some, List,
  [], ◌∷◌, ◌++◌, length, take, drop, arith, if_true, if_false, le→leb, length-replicate, ◌==◌,
  ==_ne,
}
use scicompute.Base.Int.{ℤ, pos, negsuc, eqb_ℤ}
use scicompute.Base.Fallible.{◌>>=◌}
use scicompute.Core.Types.{DeviceType, cpu}
use scicompute.Tensor.{Device}
use scicompute.Tensor.Data.Memory.{
  memcpy, read_at, write_at, cpu_allocate, Space, host, device_memory, Block, space, space_of,
  same_type, same_type_eq, same_space, copy_between,
}
use scicompute.Tensor.Data.{same_device}

-- A copy between whole blocks in the memory `from` and in the memory `into` that copies.
unfoldable pub Copying : Space → Space → (ℕ → Block → Block → Option (List ℕ)) → Type 0
Copying from into f =
    (n : ℕ) (src dst : List ℕ)
    → length src ≡ n
    → length dst ≡ n
    → f n (from, src) (into, dst) ≡ some src

take-all : (n : ℕ) (xs : List ℕ) → length xs ≡ n → take n xs ≡ xs
take-all zero [] e = refl
take-all zero (x ∷ xs) e = let bad : 1 ≤ 0 = omega arith in elim bad [ ]
take-all (suc n) [] e = refl
take-all (suc n) (x ∷ xs) e = ap (λ l. x ∷ l) (take-all n xs (omega arith))

drop-all : (n : ℕ) (xs : List ℕ) → length xs ≡ n → drop n xs ≡ []
drop-all zero [] e = refl
drop-all zero (x ∷ xs) e = let bad : 1 ≤ 0 = omega arith in elim bad [ ]
drop-all (suc n) [] e = refl
drop-all (suc n) (x ∷ xs) e = drop-all n xs (omega arith)

memcpy-Copying :
    (n : ℕ) (src dst : List ℕ) → length src ≡ n → length dst ≡ n → memcpy n src dst ≡ some src
unfolding memcpy read_at write_at
memcpy-Copying n src dst e f =
    ap (λ o. o >>= λ ys. write_at 0 ys dst)
      (if_true _ _ (le→leb (0 + n) (length src) (omega arith)) ∙ ap some (take-all n src e))
    ∙ if_true _ _ (le→leb (0 + length src) (length dst) (omega arith))
    ∙ ap (λ k. some (src ++ drop k dst)) {x = 0 + length src} {y = n} (omega arith)
    ∙ ap (λ l. some (src ++ l)) (drop-all n dst f)
    ∙ ap some (append-nil src)

same_type_refl : (t : DeviceType) → same_type t t ≡ true
same_type_refl t = ground arith

eqb_ℤ_refl : (i : ℤ) → eqb_ℤ i i ≡ true
eqb_ℤ_refl (pos a) = ==_refl a
eqb_ℤ_refl (negsuc a) = ==_refl a

same_space_refl : (s : Space) → same_space s s ≡ true
same_space_refl host = refl
same_space_refl (device_memory t i) = ap (λ b. b && eqb_ℤ i i) (same_type_refl t) ∙ eqb_ℤ_refl i

pub copy_between-Copying : (from into : Space) → Copying from into (copy_between from into)
unfolding copy_between Copying
copy_between-Copying from into n src dst e f =
    if_true _ _ (ap (λ b. b && same_space into into) (same_space_refl from) ∙ same_space_refl into)
    ∙ memcpy-Copying n src dst e f

pub length-cpu_allocate : (address n : ℕ) → 1 ≤ address → length (cpu_allocate address n).1 ≡ n
length-cpu_allocate address zero h = refl
length-cpu_allocate address (suc n) h =
    ap (λ (b : ℕ × List ℕ). length b.1)
      (if_false {b = suc n == 0} _ _ (==_ne (suc n) 0 (omega arith))
        ∙ if_false {b = address == 0} _ _ (==_ne address 0 (λ e. omega (arith, e))))
    ∙ length-replicate (suc n) 0

equal : (a b : ℕ) → (a == b) ≡ true → a ≡ b
equal a b h = ground arith

and_true : (a b : Bool) → (a && b) ≡ true → (a ≡ true) × (b ≡ true)
and_true true b h = (refl, h)
and_true false b h = elim (absurd h) [ ]
  where
    absurd : false ≡ true → ⊥
    absurd h = cc

eqb_ℤ_eq : (i j : ℤ) → eqb_ℤ i j ≡ true → i ≡ j
eqb_ℤ_eq (pos a) (pos b) h = ap pos (equal a b h)
eqb_ℤ_eq (pos a) (negsuc b) h = cc
eqb_ℤ_eq (negsuc a) (pos b) h = cc
eqb_ℤ_eq (negsuc a) (negsuc b) h = ap negsuc (equal a b h)

-- One device has one memory.
pub same_device-space : (d e : Device) → same_device d e ≡ true → space_of d ≡ space_of e
same_device-space d e h =
    let (t, i) = and_true (same_type d.device_type e.device_type) (eqb_ℤ d.id e.id) h in
    ap (λ t. space t d.id) (same_type_eq d.device_type e.device_type t)
    ∙ ap (space e.device_type) (eqb_ℤ_eq d.id e.id i)

pub host_space : (d : Device) → same_type d.device_type cpu ≡ true → space_of d ≡ Space.host
host_space d h = ap (λ t. space t d.id) (same_type_eq d.device_type cpu h)
