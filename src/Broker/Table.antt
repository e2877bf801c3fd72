-- ===== src/Broker/Table.antt =====
-- src/lcapd/broker.c: the table of readers, cc_rcid.
use lcap.Base.{
  ℕ, zero, suc, ◌+◌, ◌<◌, ◌≡◌, ◌≢◌, refl, sym, ap, ◌∙◌, true, false, not, List, [], ◌∷◌, ◌++◌,
  Option, none, some, ltb, arith, Bool-cases, inl, inr, length, length-append, set, bytes_eq,
  bytes_eq_refl, eq_of_bytes_eq, pos, if◌then◌else◌, ◌↔◌,
}
use lcap.Sys.{World, asked}
use lcap.Sys.Run.{ok, and_then}
use lcap.Broker.{
  Ctx, cid_compare, calloc, register_from, changelog_reader_register, holds, deregister_slots,
  changelog_reader_deregister,
}

length_eq : (xs ys : List ℕ) → bytes_eq xs ys ≡ true → length xs ≡ length ys
length_eq xs ys h = ap length (eq_of_bytes_eq xs ys h)

-- cid_compare says false exactly for two equal identities.
pub cid_compare-equal : (a b : List ℕ) → (cid_compare a b ≡ false) ↔ (a ≡ b)
unfolding cid_compare
cid_compare-equal a b = (λ h. eq_of_bytes_eq a b (equal h), λ e. rw e (same b))
  where
    equal :
        (if ltb (length b) (length a)
            then true
            else if ltb (length a) (length b)
            then true
            else not (bytes_eq a b))
          ≡ false
        → bytes_eq a b ≡ true
    equal h = ground arith

    same :
        (c : List ℕ)
        → (if ltb (length c) (length c)
            then true
            else if ltb (length c) (length c)
            then true
            else not (bytes_eq c c))
          ≡ false
    same c = ground (arith, bytes_eq_refl c)

-- No device of the list has this name; no slot of the table holds this identity.
abbrev pub Unnamed : List ℕ → List (List ℕ) → Type 0
Unnamed mdt [] = Unit {0}
Unnamed mdt (d ∷ ds) = (mdt ≢ d) × Unnamed mdt ds

abbrev pub Unheld : List ℕ → List (Option (List ℕ)) → Type 0
Unheld cid [] = Unit {0}
Unheld cid (slot ∷ slots) = (slot ≢ some cid) × Unheld cid slots

register_from-eq :
    (w : World) (mdt cid : List ℕ) (i : ℕ) (before after : List (List ℕ)) (ctx : Ctx)
    → w.alloc ctx.io.calls ≡ true
    → Unnamed mdt before
    → register_from w mdt cid i (before ++ mdt ∷ after) ctx
      ≡ ok (pos 0) (record ctx {
        cc_rcid = set ctx.cc_rcid (i + length before) (some cid);
        io = asked ctx.io;
      })
unfolding register_from calloc
register_from-eq w mdt cid i [] after ctx memory other =
    let here : i + 0 ≡ i = omega arith in rw (bytes_eq_refl mdt, memory, here)
register_from-eq w mdt cid i (d ∷ before) after ctx memory other =
    let there : i + suc (length before) ≡ suc i + length before = omega arith in
    rw (differ, there) (register_from-eq w mdt cid (suc i) before after ctx memory other.1)
  where
    differ : bytes_eq mdt d ≡ false
    differ = elim (Bool-cases (bytes_eq mdt d)) [
      | inl same ↦ absurd (other.0 (eq_of_bytes_eq mdt d same))
      | inr no_match ↦ no_match
    ]

-- A reader that registers for a device gets the slot with the number of the first configured device
-- of that name, and no other slot changes. There is memory for its identity.
pub register_takes_slot :
    (w : World) (mdt cid : List ℕ) (before after : List (List ℕ)) (ctx : Ctx)
    → w.alloc ctx.io.calls ≡ true
    → ctx.cc_config.ccf_mdt ≡ before ++ mdt ∷ after
    → Unnamed mdt before
    → changelog_reader_register w mdt cid ctx
      ≡ ok
          (pos 0)
          (record ctx { cc_rcid = set ctx.cc_rcid (length before) (some cid); io = asked ctx.io })
unfolding changelog_reader_register
register_takes_slot w mdt cid before after ctx memory devices other =
    let here : 0 + length before ≡ length before = omega arith in
    ap (λ ds. register_from w mdt cid 0 ds ctx) devices
    ∙ register_from-eq w mdt cid 0 before after ctx memory other
    ∙ ap
        (λ i. ok (pos 0) (record ctx { cc_rcid = set ctx.cc_rcid i (some cid); io = asked ctx.io }))
        here

holds-other : (cid : List ℕ) (slot : Option (List ℕ)) → slot ≢ some cid → holds cid slot ≡ false
unfolding holds
holds-other cid none other = refl
holds-other cid (some c) other = elim (Bool-cases (cid_compare c cid)) [
  | inl differs ↦ rw differs
  | inr equal ↦ absurd (other (ap some ((cid_compare-equal c cid).0 equal)))
]

holds_self : (cid : List ℕ) → holds cid (some cid) ≡ true
unfolding holds
holds_self cid = rw ((cid_compare-equal cid cid).1 refl)

restores :
    (cid : List ℕ) (n : ℕ) (before after : List (Option (List ℕ)))
    → Unheld cid before
    → length before < n
    → deregister_slots cid n (set (before ++ none ∷ after) (length before) (some cid))
      ≡ before ++ none ∷ after
unfolding deregister_slots
restores cid zero before after free inside = absurd (omega arith)
restores cid (suc n) [] after free inside = rw (holds_self cid)
restores cid (suc n) (slot ∷ before) after free inside =
    rw (holds-other cid slot free.0)
      (ap (◌∷◌ slot) (restores cid n before after free.1 (omega arith)))

-- A reader registers for a device whose slot is empty, and deregisters: the table is as it was
-- before, where no slot in front holds its identity, the table has a slot for each device, and
-- there is memory for the identity.
pub deregister_undoes_register :
    (w : World) (mdt cid : List ℕ) (devs devs' : List (List ℕ))
    (slots slots' : List (Option (List ℕ))) (ctx : Ctx)
    → w.alloc ctx.io.calls ≡ true
    → ctx.cc_config.ccf_mdt ≡ devs ++ mdt ∷ devs'
    → ctx.cc_rcid ≡ slots ++ none ∷ slots'
    → length devs ≡ length slots
    → Unnamed mdt devs
    → Unheld cid slots
    → and_then
        (changelog_reader_register w mdt cid ctx)
        (λ rc c. ok rc (changelog_reader_deregister cid c))
      ≡ ok (pos 0) (record ctx { io = asked ctx.io })
unfolding changelog_reader_deregister
deregister_undoes_register w mdt cid devs devs' slots slots' ctx memory devices table same other
      free =
    rw (register_takes_slot w mdt cid devs devs' ctx memory devices other) (
      ap (λ t. ok (pos 0) (record ctx { cc_rcid = t; io = asked ctx.io }))
        (ap
            (λ t.
              deregister_slots cid (length ctx.cc_config.ccf_mdt) (set t (length devs) (some cid)))
            table
          ∙ ap
              (λ i.
                deregister_slots cid (length ctx.cc_config.ccf_mdt)
                  (set (slots ++ none ∷ slots') i (some cid)))
              same
          ∙ restores cid (length ctx.cc_config.ccf_mdt) slots slots' free inside
          ∙ sym table))
  where
    inside : length slots < length ctx.cc_config.ccf_mdt
    inside = rw devices (omega (arith, same, length-append devs (mdt ∷ devs')))
