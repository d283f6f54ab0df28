-- ===== src/Device/Manager/Lookup.antt =====
-- Every state of `DeviceManager` that its calls reach, the lookups that register devices included.
use scicompute.Base.{
  Bool, true, ltb, ◌-◌, some_inj, ℕ, ◌+◌, ◌^◌, ◌≤◌, ◌<◌, ◌≡◌, ◌⊎◌, inl, inr, ◌&&◌, refl, sym, ap,
  subst, ◌∙◌, Option, some, none, List, [], ◌∷◌, length, arith, ◌==◌, if_true, if_false, ==_ne,
  ℕ_discrete, Option-cases, Bool-cases,
}
use scicompute.Base.Int.{ℤ}
use scicompute.Base.Assoc.{find, put, erase, find-hit, find-miss, Distinct}
use scicompute.Device.Manager.{
  Device, DeviceManager, Notice, create, registered, register_device, register_all, scan_devices,
  or_scan, get_device, set_default_device, find_device, num_devices, cuda_type, cpu_type, Reach,
  start, registers, unregisters, gets, sets_default, scans, adds_callback, removes_callback,
  same_id, remove_callback, add_callback, erase_at,
}
use scicompute.Device.Manager.Registry.{Present, Good, Good-more, Good-registered, Good-unregister}

find_device-find :
    (ty : ℕ) (id : ℤ) (ps : List (ℕ × Device)) (d : Device)
    → Distinct ps
    → find_device ty id ps ≡ some d
    → (key : ℕ) × (find key ps ≡ some d)
unfolding find_device Distinct find
find_device-find ty id [] d u e = cc
find_device-find ty id (p ∷ ps) d u e =
    elim (Bool-cases (p.1.device_type == ty && same_id p.1.id id)) [
      | inl t ↦ (p.0, find-hit p.0 p ps refl ∙ sym (if_true _ _ t) ∙ e)
      | inr f ↦
          let (key, h) = find_device-find ty id ps d u.1 (sym (if_false _ _ f) ∙ e) in
          (
            key,
            find-miss key p ps (λ same. absurd (sym u.0 ∙ ap (λ i. find i ps) (sym same) ∙ h)) ∙ h,
          )
    ]
  where
    absurd : none ≡ some d → ⊥
    absurd h = cc

Present-find_device :
    (ty : ℕ) (id : ℤ) (m : DeviceManager)
    → Distinct m.devices
    → Present m (find_device ty id m.devices)
unfolding Present
Present-find_device ty id m u = elim (Option-cases (find_device ty id m.devices)) [
  | inl e ↦ inl e
  | inr (d, e) ↦ let (key, h) = find_device-find ty id m.devices d u e in inr (inr (key, d, e, h))
]

Good-register_all :
    (cpu : Device) (found : List Device) (n : ℕ) (m : DeviceManager)
    → Good cpu n m
    → n + length found + 2 < 2 ^ 32
    → Good cpu (n + length found) (register_all found m).1
unfolding register_all
Good-register_all cpu [] n m g small = Good-more cpu n 0 m g
Good-register_all cpu (d ∷ ds) n m g small =
    subst (λ k. Good cpu k (register_all ds (registered d m)).1) {x = n + 1 + length ds}
      (omega arith)
      (Good-register_all cpu ds (n + 1) (registered d m) (Good-registered cpu d n m g (omega arith))
        (omega arith))

Good-scan_devices :
    (cpu : Device) (found : List Device) (n : ℕ) (m : DeviceManager)
    → Good cpu n m
    → n + length found + 2 < 2 ^ 32
    → Good cpu (n + length found) (scan_devices found m).1
unfolding scan_devices
Good-scan_devices cpu found n m g small = elim (ℕ_discrete (num_devices cuda_type m.devices) 0) [
  | yes e ↦
      subst (λ (r : List Notice × DeviceManager). Good cpu (n + length found) r.1)
        (sym (if_true _ _ (ap (λ k. k == 0) e))) (Good-register_all cpu found n m g small)
  | no ne ↦
      subst (λ (r : List Notice × DeviceManager). Good cpu (n + length found) r.1)
        (sym (if_false _ _ (==_ne (num_devices cuda_type m.devices) 0 ne)))
        (Good-more cpu n (length found) m g)
]

Good-get_device :
    (cpu : Device) (found : List Device) (ty : ℕ) (id : ℤ) (n : ℕ) (m : DeviceManager)
    → Good cpu n m
    → n + length found + 2 < 2 ^ 32
    → Good cpu (n + length found) (get_device found ty id m).2
      × Present (get_device found ty id m).2 (get_device found ty id m).1
unfolding get_device Present
Good-get_device cpu found ty id n m g small =
    let more = Good-more cpu n (length found) m g in
    elim (ℕ_discrete ty cpu_type) [
      | yes e ↦ subst Fine (sym (if_true _ _ (ap (λ k. k == cpu_type) e))) (more, of_cpu)
      | no ne ↦
          subst Fine (sym (if_false _ _ (==_ne ty cpu_type ne)))
            (elim (Option-cases (find_device ty id m.devices)) [
              | inl e ↦
                  let g1 = Good-scan_devices cpu found n m g small in
                  subst (λ o. Fine (or_scan found ty id o m)) (sym e)
                    (g1, Present-find_device ty id (scan_devices found m).1 g1.distinct)
              | inr (d, e) ↦
                  subst (λ o. Fine (or_scan found ty id o m)) (sym e)
                    (more, subst (Present m) e (Present-find_device ty id m g.distinct))
            ])
    ]
  where
    Fine : List Notice × Option Device × DeviceManager → Type 0
    Fine r = Good cpu (n + length found) r.2 × Present r.2 r.1

    of_cpu : Present m (some m.cpu_device)
    of_cpu = inr (inl refl)

Good-named :
    (cpu : Device) (ty : ℕ) (id : ℤ) (n : ℕ) (m : DeviceManager)
    → Good cpu n m
    → Good cpu n (record m { default_type = ty; default_id = id })
unfolding Present
Good-named cpu ty id n m g = record {
  cpu_kept = g.cpu_kept;
  distinct = g.distinct;
  cpu_found = g.cpu_found;
  next = g.next;
  known = g.known;
  default = g.default;
}

Good-default :
    (cpu : Device) (n : ℕ) (m : DeviceManager) (d : Option Device)
    → Good cpu n m
    → Present m d
    → Good cpu n (record m { default_device = d })
unfolding Present
Good-default cpu n m d g p = record {
  cpu_kept = g.cpu_kept;
  distinct = g.distinct;
  cpu_found = g.cpu_found;
  next = g.next;
  known = g.known;
  default = p;
}

Good-callbacks :
    (cpu : Device) (next n : ℕ) (cs : List ℕ) (m : DeviceManager)
    → Good cpu n m
    → Good cpu n (record m { next_callback_id = next; callbacks = cs })
unfolding Present
Good-callbacks cpu next n cs m g = record {
  cpu_kept = g.cpu_kept;
  distinct = g.distinct;
  cpu_found = g.cpu_found;
  next = g.next;
  known = g.known;
  default = g.default;
}

-- `RemoveCallback` changes the callbacks only.
remove_callback-only :
    (id : ℕ) (b : Bool) (m m' : DeviceManager)
    → remove_callback id m ≡ some (b, m')
    → (cs : List ℕ) × (m' ≡ record m { callbacks = cs })
unfolding remove_callback
remove_callback-only id b m m' e = elim (Bool-cases (ltb 0 id && ltb id m.next_callback_id)) [
  | inr f ↦ (
    m.callbacks,
    sym (ap (λ r. r.1) (some_inj {A = Bool × DeviceManager} (sym (if_false _ _ f) ∙ e))),
  )
  | inl t ↦ elim (Option-cases (erase_at (id - 1) m.callbacks)) [
    | inl f ↦ elim (absurd (sym (ap answer f) ∙ sym (if_true _ _ t) ∙ e)) [ ]
    | inr (cs, f) ↦ (
      cs,
      sym (
          ap (λ r. r.1)
            (some_inj {A = Bool × DeviceManager} (sym (ap answer f) ∙ sym (if_true _ _ t) ∙ e))),
    )
  ]
]
  where
    answer : Option (List ℕ) → Option (Bool × DeviceManager)
    answer o = elim o [ none ↦ none | some cs ↦ some (true, record m { callbacks = cs }) ]

    absurd : ◌≡◌ {A = Option (Bool × DeviceManager)} none (some (b, m')) → ⊥
    absurd h = cc

Reach-Good :
    (cpu : Device) (n : ℕ) (m : DeviceManager) → Reach cpu n m → n + 2 < 2 ^ 32 → Good cpu n m
unfolding create Present find put erase Distinct register_device set_default_device add_callback
Reach-Good cpu n m start small = record {
  cpu_kept = refl;
  distinct = (refl, tt);
  cpu_found = refl;
  next = (omega arith, omega arith);
  known = λ id le. find-miss id (1, cpu) [] (omega arith);
  default = inr (inl refl);
}
Reach-Good cpu n m (registers {n = k} {m = l} d r) small =
    Good-registered cpu d k l (Reach-Good cpu k l r (omega arith)) (omega arith)
Reach-Good cpu n m (unregisters {m = l} id r) small =
    Good-unregister cpu n id l (Reach-Good cpu n l r small)
Reach-Good cpu n m (gets {n = k} {m = l} found ty id r) small =
    (Good-get_device cpu found ty id k l (Reach-Good cpu k l r (omega arith)) (omega arith)).0
Reach-Good cpu n m (sets_default {n = k} {m = l} found ty id r) small =
    let g = Reach-Good cpu k l r (omega arith) in
    let (h, p) =
      Good-get_device cpu found ty id k (record l { default_type = ty; default_id = id })
        (Good-named cpu ty id k l g) (omega arith) in
    Good-default cpu _ _ _ h p
Reach-Good cpu n m (scans {n = k} {m = l} found r) small =
    Good-scan_devices cpu found k l (Reach-Good cpu k l r (omega arith)) (omega arith)
Reach-Good cpu n m (adds_callback {m = l} c r) small =
    Good-callbacks cpu _ n _ l (Reach-Good cpu n l r small)
Reach-Good cpu n m (removes_callback {m = l} id b m' r e) small =
    let (cs, same) = remove_callback-only id b l m' e in
    subst (Good cpu n) (sym same)
      (Good-callbacks cpu l.next_callback_id n cs l (Reach-Good cpu n l r small))

-- After any calls that register fewer than 2^32 - 2 devices, when each call has returned, no callback
-- has thrown or called the manager, and no callback was removed out of bounds, the CPU's device still stands under the
-- id 1, the ids from the next one on are free, and the default device is null, the CPU's or a device
-- that is registered.
pub default_registered :
    (cpu : Device) (n : ℕ) (m : DeviceManager)
    → Reach cpu n m
    → n + 2 < 2 ^ 32
    → (find 1 m.devices ≡ some cpu)
      × ((id : ℕ) → m.next_device_id ≤ id → find id m.devices ≡ none)
      × ((m.default_device ≡ none)
          ⊎ ((m.default_device ≡ some cpu)
              ⊎ ((id : ℕ) × (v : Device) × (m.default_device ≡ some v)
                  × (find id m.devices ≡ some v))))
unfolding Present
default_registered cpu n m r small =
    let g = Reach-Good cpu n m r small in
    (
      g.cpu_found,
      g.known,
      subst
          (λ c.
            (m.default_device ≡ none)
            ⊎ ((m.default_device ≡ some c)
                ⊎ ((id : ℕ) × (v : Device) × (m.default_device ≡ some v)
                    × (find id m.devices ≡ some v))))
          g.cpu_kept g.default,
    )
