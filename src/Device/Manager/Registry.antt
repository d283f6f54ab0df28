-- ===== src/Device/Manager/Registry.antt =====
-- The registry of `DeviceManager`: the CPU stays, and the default device is one that is there.
use scicompute.Base.{
  ℕ, ◌+◌, ◌^◌, ◌≤◌, ◌<◌, ◌≡◌, ◌≢◌, ◌⊎◌, inl, inr, Bool, refl, sym, ap, subst, ◌∙◌, Option, some,
  none, List, arith, ◌==◌, if_true, if_false, ==_refl, ==_ne, ℕ_discrete, some_inj, Option-cases,
}
use scicompute.Base.Int.{pos}
use scicompute.Base.Assoc.{
  find, erase, find-put_other, find-erase_same, find-erase_other, Distinct, Distinct-put,
  Distinct-erase,
}
use scicompute.Device.Manager.{
  Device, DeviceManager, Notice, registered, drop_default, unregister_found, unregister_device,
  cpu_type,
}

-- A device that the manager answers with: no device, the CPU's, or a registered one.
unfoldable pub Present : DeviceManager → Option Device → Type 0
Present m d =
    (d ≡ none)
    ⊎ ((d ≡ some m.cpu_device)
        ⊎ ((id : ℕ) × (v : Device) × (d ≡ some v) × (find id m.devices ≡ some v)))

pub record Good (cpu : Device) (n : ℕ) (m : DeviceManager) : Type 0 where
  pub cpu_kept : m.cpu_device ≡ cpu
  pub distinct : Distinct m.devices
  pub cpu_found : find 1 m.devices ≡ some cpu
  pub next : (2 ≤ m.next_device_id) × (m.next_device_id ≤ n + 2)
  pub known : (id : ℕ) → m.next_device_id ≤ id → find id m.devices ≡ none
  pub default : Present m m.default_device

pub Good-more : (cpu : Device) (n k : ℕ) (m : DeviceManager) → Good cpu n m → Good cpu (n + k) m
Good-more cpu n k m g = record {
  cpu_kept = g.cpu_kept;
  distinct = g.distinct;
  cpu_found = g.cpu_found;
  next = (g.next.0, omega (arith, g.next.1));
  known = g.known;
  default = g.default;
}

pub Good-registered :
    (cpu d : Device) (n : ℕ) (m : DeviceManager)
    → Good cpu n m
    → n + 3 < 2 ^ 32
    → Good cpu (n + 1) (registered d m)
unfolding registered Present
Good-registered cpu d n m g small =
    let new = m.next_device_id in
    let id_lt : (id : ℕ) (v : Device) → find id m.devices ≡ some v → id ≢ new =
      λ id v f e. absurd v (sym (g.known id (omega (arith, sym e))) ∙ f) in
    record {
      cpu_kept = g.cpu_kept;
      distinct = Distinct-put new d m.devices g.distinct;
      cpu_found = find-put_other 1 new d m.devices (omega (arith, g.next.0)) ∙ g.cpu_found;
      next = (omega (arith, g.next.0, g.next.1), omega (arith, g.next.0, g.next.1));
      known = λ id le.
          find-put_other id new d m.devices (omega (arith, g.next.0, g.next.1))
          ∙ g.known id (omega (arith, g.next.0, g.next.1));
      default = elim g.default [
        | inl e ↦ inl e
        | inr (inl e) ↦ inr (inl e)
        | inr (inr (id, v, e, f)) ↦
            inr (inr (id, v, e, find-put_other id new d m.devices (id_lt id v f) ∙ f))
      ];
    }
  where
    absurd : (v : Device) → none ≡ some v → ⊥
    absurd v e = cc

abbrev unlisted : ℕ → DeviceManager → DeviceManager
unlisted id m = record m { devices = erase id m.devices }

Good-erased :
    (cpu d : Device) (n id : ℕ) (m : DeviceManager)
    → Good cpu n m
    → find id m.devices ≡ some d
    → d.address ≢ m.cpu_device.address
    → Good cpu n (drop_default d m.default_device (unlisted id m))
unfolding Present drop_default
Good-erased cpu d n id m g f other = elim (Option-cases m.default_device) [
  | inl e ↦ subst (λ o. Good cpu n (drop_default d o (unlisted id m))) (sym e) (kept (inl e))
  | inr (v, e) ↦
      subst (λ o. Good cpu n (drop_default d o (unlisted id m))) (sym e)
        (elim (ℕ_discrete v.address d.address) [
          | yes a ↦
              subst (Good cpu n)
                (sym (if_true _ _ (ap (λ k. k == d.address) a ∙ ==_refl d.address))) reset
          | no a ↦ subst (Good cpu n) (sym (if_false _ _ (==_ne v.address d.address a))) (
              kept (elim g.default [
                | inl h ↦ inl h
                | inr (inl h) ↦ inr (inl h)
                | inr (inr (key, w, h, k)) ↦
                    inr (
                      inr
                        (key, w, h, find-erase_other key id m.devices (apart v key w e a h k) ∙ k))
              ]))
        ])
]
  where
    one_apart : 1 ≢ id
    one_apart e = other (
        ap (λ (o : Device). o.address)
          (some_inj (sym f ∙ ap (λ i. find i m.devices) (sym e) ∙ g.cpu_found) ∙ sym g.cpu_kept))

    apart :
        (v : Device) (key : ℕ) (w : Device)
        → m.default_device ≡ some v
        → v.address ≢ d.address
        → m.default_device ≡ some w
        → find key m.devices ≡ some w
        → key ≢ id
    apart v key w e a h k same = a (
        ap (λ (o : Device). o.address)
          (some_inj (sym e ∙ h) ∙ some_inj (sym k ∙ ap (λ i. find i m.devices) same ∙ f)))

    gone : (i : ℕ) → m.next_device_id ≤ i → find i (erase id m.devices) ≡ none
    gone i le = elim (ℕ_discrete i id) [
      | yes e ↦ ap (λ k. find k (erase id m.devices)) e ∙ find-erase_same id m.devices
      | no ne ↦ find-erase_other i id m.devices ne ∙ g.known i le
    ]

    kept : Present (unlisted id m) m.default_device → Good cpu n (unlisted id m)
    kept p = record {
      cpu_kept = g.cpu_kept;
      distinct = Distinct-erase id m.devices g.distinct;
      cpu_found = find-erase_other 1 id m.devices one_apart ∙ g.cpu_found;
      next = g.next;
      known = gone;
      default = p;
    }

    reset : Good cpu n (record (unlisted id m) {
      default_device = some m.cpu_device;
      default_type = cpu_type;
      default_id = pos 0;
    })
    reset = record {
      cpu_kept = g.cpu_kept;
      distinct = Distinct-erase id m.devices g.distinct;
      cpu_found = find-erase_other 1 id m.devices one_apart ∙ g.cpu_found;
      next = g.next;
      known = gone;
      default = inr (inl refl);
    }

pub Good-unregister :
    (cpu : Device) (n id : ℕ) (m : DeviceManager)
    → Good cpu n m
    → Good cpu n (unregister_device id m).2
unfolding unregister_device
Good-unregister cpu n id m g = elim (Option-cases (find id m.devices)) [
  | inl e ↦ subst (λ o. Good cpu n (unregister_found id o m).2) (sym e) g
  | inr (d, e) ↦
      subst (λ o. Good cpu n (unregister_found id o m).2) (sym e)
        (elim (ℕ_discrete d.address m.cpu_device.address) [
          | yes a ↦
              subst (λ (r : List Notice × Bool × DeviceManager). Good cpu n r.2)
                (sym (
                  if_true _ _
                    (ap (λ k. k == m.cpu_device.address) a ∙ ==_refl m.cpu_device.address)))
                g
          | no a ↦
              subst (λ (r : List Notice × Bool × DeviceManager). Good cpu n r.2)
                (sym (if_false _ _ (==_ne d.address m.cpu_device.address a)))
                (Good-erased cpu d n id m g e a)
        ])
]
