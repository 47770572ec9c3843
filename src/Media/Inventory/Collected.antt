-- ===== src/Media/Inventory/Collected.antt =====
-- An inventory is made exactly from one successful output of each command.
use ovayra.Prelude.{
  ℕ, zero, suc, ◌+◌, ◌≤◌, ◌≡◌, refl, sym, ap, ◌∙◌, subst, ◌↔◌, inl, inr, Bool, true, false, not,
  ◌||◌, Option, none, some, List, [], ◌∷◌, Memᴰ, arith, if◌then◌else◌, ==_iff, Bool-cases, ok,
  guard, >>=-eq-ok, guard-eq-ok, All, Text,
}
use ovayra.Media.Inventory.{
  InventoryCommand, version_command, buildconf_command, hwaccels_command, decoders_command,
  encoders_command, filters_command, all_commands, same_command, discriminant, InventoryOutput,
  Inventory, empty_inventory, Seen, none_seen, mark, store, exited_zero, collect, require_all,
  from_command_outputs,
}

-- The field of an inventory that a command fills.
unfoldable pub field : InventoryCommand → Inventory → Text
field version_command i = i.version
field buildconf_command i = i.buildconf
field hwaccels_command i = i.hwaccels
field decoders_command i = i.decoders
field encoders_command i = i.encoders
field filters_command i = i.filters

abbrev pub count_of : InventoryCommand → List InventoryOutput → ℕ
count_of c [] = 0
count_of c (o ∷ outputs) =
    let rest = count_of c outputs in if same_command o.command c then 1 + rest else rest

abbrev pub Succeeded : InventoryOutput → Type 0
Succeeded o = o.exit_code ≡ some 0

abbrev once : Bool → ℕ
once b = if b then 1 else 0

of_discriminant : ℕ → InventoryCommand
of_discriminant zero = version_command
of_discriminant (suc zero) = buildconf_command
of_discriminant (suc (suc zero)) = hwaccels_command
of_discriminant (suc (suc (suc zero))) = decoders_command
of_discriminant (suc (suc (suc (suc zero)))) = encoders_command
of_discriminant _ = filters_command

of_discriminant-discriminant : (a : InventoryCommand) → of_discriminant (discriminant a) ≡ a
unfolding of_discriminant discriminant
of_discriminant-discriminant version_command = refl
of_discriminant-discriminant buildconf_command = refl
of_discriminant-discriminant hwaccels_command = refl
of_discriminant-discriminant decoders_command = refl
of_discriminant-discriminant encoders_command = refl
of_discriminant-discriminant filters_command = refl

same_command_sound : (a b : InventoryCommand) → same_command a b ≡ true → a ≡ b
unfolding same_command
same_command_sound a b h =
    sym (of_discriminant-discriminant a)
    ∙ ap of_discriminant ((==_iff (discriminant a) (discriminant b)).0 h)
    ∙ of_discriminant-discriminant b

field-store_same : (c : InventoryCommand) (t : Text) (i : Inventory) → field c (store c t i) ≡ t
unfolding field store
field-store_same version_command t i = refl
field-store_same buildconf_command t i = refl
field-store_same hwaccels_command t i = refl
field-store_same decoders_command t i = refl
field-store_same encoders_command t i = refl
field-store_same filters_command t i = refl

abbrev Untouched : InventoryCommand → Text → Inventory → InventoryCommand → Type 0
Untouched a t i c = same_command a c ≡ false → field c (store a t i) ≡ field c i

field-store_other :
    (a c : InventoryCommand) (t : Text) (i : Inventory)
    → same_command a c ≡ false
    → field c (store a t i) ≡ field c i
unfolding field store same_command discriminant
field-store_other version_command c t i = elim c as (Untouched version_command t i) [
  | version_command ↦ λ h. cc
  | _ ↦ λ h. refl
]
field-store_other buildconf_command c t i = elim c as (Untouched buildconf_command t i) [
  | buildconf_command ↦ λ h. cc
  | _ ↦ λ h. refl
]
field-store_other hwaccels_command c t i = elim c as (Untouched hwaccels_command t i) [
  | hwaccels_command ↦ λ h. cc
  | _ ↦ λ h. refl
]
field-store_other decoders_command c t i = elim c as (Untouched decoders_command t i) [
  | decoders_command ↦ λ h. cc
  | _ ↦ λ h. refl
]
field-store_other encoders_command c t i = elim c as (Untouched encoders_command t i) [
  | encoders_command ↦ λ h. cc
  | _ ↦ λ h. refl
]
field-store_other filters_command c t i = elim c as (Untouched filters_command t i) [
  | filters_command ↦ λ h. cc
  | _ ↦ λ h. refl
]

-- The output that filled the field of a command.
abbrev pub Source : InventoryCommand → List InventoryOutput → Inventory → Type 0
Source c outputs i =
    (o : InventoryOutput) × Memᴰ o outputs × (o.command ≡ c) × (field c i ≡ o.output)

-- How a run over the outputs accounts for one command.
record IsFilled (c : InventoryCommand) (outputs : List InventoryOutput) (seen seen' : Seen)
    (i i' : Inventory) : Type 0 where
  counted : once (seen c) + count_of c outputs ≡ once (seen' c)
  kept : count_of c outputs ≡ 0 → field c i' ≡ field c i
  filled : count_of c outputs ≡ 1 → Source c outputs i'

IsFilled-cons :
    (c : InventoryCommand) (o : InventoryOutput) (outputs : List InventoryOutput)
    (seen seen' : Seen) (i i' : Inventory)
    → seen o.command ≡ false
    → IsFilled c outputs (mark o.command seen) seen' (store o.command o.output i) i'
    → IsFilled c (o ∷ outputs) seen seen' i i'
IsFilled-cons c o outputs seen seen' i i' fresh rest =
    elim (Bool-cases (same_command o.command c)) [
      | inl same ↦
          let e : o.command ≡ c = same_command_sound o.command c same in
          let unseen : seen c ≡ false = subst (λ x. seen x ≡ false) e fresh in
          let n : once (same_command o.command c || seen c) + count_of c outputs ≡ once (seen' c) =
            rest.counted in
          let n' : 1 + count_of c outputs ≡ once (seen' c) = rw same at n in
          record {
            counted = rw (same, unseen) (omega (arith, n'));
            kept = λ h. let bad : 1 + count_of c outputs ≡ 0 = rw same at h in absurd (omega arith);
            filled = λ h.
                let last : 1 + count_of c outputs ≡ 1 = rw same at h in
                (
                  o,
                  Memᴰ.head refl,
                  e,
                  rest.kept (omega arith)
                      ∙ subst (λ x. field x (store o.command o.output i) ≡ o.output) e
                          (field-store_same o.command o.output i),
                );
          }
      | inr other ↦
          let n : once (same_command o.command c || seen c) + count_of c outputs ≡ once (seen' c) =
            rest.counted in
          record {
            counted = rw other (rw other at n);
            kept = λ h. rest.kept (rw other at h) ∙ field-store_other o.command c o.output i other;
            filled =
                λ h. let (o', m, k, f) = rest.filled (rw other at h) in (o', Memᴰ.tail m, k, f);
          }
    ]

exited_zero_sound : (code : Option ℕ) → exited_zero code ≡ true → code ≡ some 0
unfolding exited_zero
exited_zero_sound none h = cc
exited_zero_sound (some n) h = ap some ((==_iff n 0).0 h)

collect_sound :
    (outputs : List InventoryOutput) (seen : Seen) (i : Inventory) {seen' : Seen} {i' : Inventory}
    → collect outputs seen i ≡ ok (seen', i')
    → All Succeeded outputs × ((c : InventoryCommand) → IsFilled c outputs seen seen' i i')
unfolding collect
collect_sound [] seen i {seen'} {i'} h =
    let same : ◌≡◌ {A = Seen × Inventory} (seen, i) (seen', i') = cc in
    let flags : seen ≡ seen' = ap (λ (x : Seen × Inventory). x.0) same in
    let stored : i ≡ i' = ap (λ (x : Seen × Inventory). x.1) same in
    (
      tt,
      λ c. record {
        counted = rw (← flags) (omega arith);
        kept = λ _. ap (field c) (sym stored);
        filled = λ bad. absurd (omega arith);
      },
    )
collect_sound (o ∷ outputs) seen i {seen'} {i'} h =
    let (u, fresh, h1) = >>=-eq-ok (guard (not (seen o.command)) _) _ h in
    let (u', exited, h2) = >>=-eq-ok (guard (exited_zero o.exit_code) _) _ h1 in
    let unseen : seen o.command ≡ false =
      ground (arith, guard-eq-ok (not (seen o.command)) _ fresh) in
    let (succeeded, filled) =
      collect_sound outputs (mark o.command seen) (store o.command o.output i) h2 in
    (
      (exited_zero_sound o.exit_code (guard-eq-ok (exited_zero o.exit_code) _ exited), succeeded),
      λ c. IsFilled-cons c o outputs seen seen' i i' unseen (filled c),
    )

-- An inventory of whose commands each ran once and successfully.
pub record IsComplete (outputs : List InventoryOutput) : Type 0 where
  pub succeeded : All Succeeded outputs
  pub one_each : (c : InventoryCommand) → count_of c outputs ≡ 1

require_all_sound :
    (seen : Seen) → require_all all_commands seen ≡ ok tt → (c : InventoryCommand) → seen c ≡ true
unfolding require_all
require_all_sound seen h c = elim c [
  | version_command ↦ ground arith
  | buildconf_command ↦ ground arith
  | hwaccels_command ↦ ground arith
  | decoders_command ↦ ground arith
  | encoders_command ↦ ground arith
  | filters_command ↦ ground arith
]

once_one : (b : Bool) → once b ≡ 1 → b ≡ true
once_one true h = refl
once_one false h = absurd (omega arith)

require_all_complete :
    (commands : List InventoryCommand) (seen : Seen)
    → ((c : InventoryCommand) → seen c ≡ true)
    → require_all commands seen ≡ ok tt
unfolding require_all
require_all_complete [] seen h = refl
require_all_complete (c ∷ commands) seen h = rw (h c) (require_all_complete commands seen h)

-- Each field of an inventory that is made is the output of its command, which is among the outputs.
pub from_command_outputs_sound :
    (outputs : List InventoryOutput) {i : Inventory}
    → from_command_outputs outputs ≡ ok i
    → IsComplete outputs × ((c : InventoryCommand) → Source c outputs i)
unfolding from_command_outputs
from_command_outputs_sound outputs {i} h =
    let ((seen, inventory), e, h1) = >>=-eq-ok (collect outputs none_seen empty_inventory) _ h in
    let (u, required, h2) = >>=-eq-ok (require_all all_commands seen) _ h1 in
    let same : inventory ≡ i = cc h2 in
    let (succeeded, filled) = collect_sound outputs none_seen empty_inventory e in
    let one : (c : InventoryCommand) → count_of c outputs ≡ 1 = λ c.
      let n : 0 + count_of c outputs ≡ once (seen c) = (filled c).counted in
      omega (arith, rw (require_all_sound seen required c) at n) in
    (
      record { succeeded = succeeded; one_each = one },
      λ c. subst (Source c outputs) same ((filled c).filled (one c)),
    )

same_command_refl : (c : InventoryCommand) → same_command c c ≡ true
unfolding same_command
same_command_refl c = (==_iff (discriminant c) (discriminant c)).1 refl

-- The room that an output takes is what its mark takes of the rest.
few-mark :
    (a c : InventoryCommand) (s : Bool) (n : ℕ)
    → once s + (if same_command a c then 1 + n else n) ≤ 1
    → once (same_command a c || s) + n ≤ 1
few-mark a c s n h = elim (Bool-cases (same_command a c)) [
  | inl same ↦ let k : once s + (1 + n) ≤ 1 = rw same at h in rw same (omega arith)
  | inr other ↦ let k : once s + n ≤ 1 = rw other at h in rw other k
]

few_unseen :
    (c : InventoryCommand) (s : Bool) (n : ℕ)
    → once s + (if same_command c c then 1 + n else n) ≤ 1
    → s ≡ false
few_unseen c true n h =
    let k : 1 + (1 + n) ≤ 1 = rw (same_command_refl c) at h in absurd (omega arith)
few_unseen c false n h = refl

collect_complete :
    (outputs : List InventoryOutput) (seen : Seen) (i : Inventory)
    → All Succeeded outputs
    → ((c : InventoryCommand) → once (seen c) + count_of c outputs ≤ 1)
    → (seen' : Seen) × (i' : Inventory) × (collect outputs seen i ≡ ok (seen', i'))
unfolding collect
collect_complete [] seen i h few = (seen, i, refl)
collect_complete (o ∷ outputs) seen i h few =
    let unseen : seen o.command ≡ false =
      few_unseen o.command (seen o.command) (count_of o.command outputs) (few o.command) in
    let (seen', i', e) =
      collect_complete outputs (mark o.command seen) (store o.command o.output i) h.1
        (λ c. few-mark o.command c (seen c) (count_of c outputs) (few c)) in
    (seen', i', rw (exited_zero, unseen, h.0) e)

-- The outputs make an inventory exactly if each of the six commands has one output and every exit
-- code is 0.
pub from_command_outputs_iff :
    (outputs : List InventoryOutput)
    → ((i : Inventory) × (from_command_outputs outputs ≡ ok i)) ↔ IsComplete outputs
unfolding from_command_outputs
from_command_outputs_iff outputs = (
  λ (i, h). (from_command_outputs_sound outputs h).0,
  λ h.
      let (seen, i, e) =
        collect_complete outputs none_seen empty_inventory h.succeeded
          (λ c. rw (h.one_each c) (omega arith)) in
      let counts = (collect_sound outputs none_seen empty_inventory e).1 in
      let every : (c : InventoryCommand) → seen c ≡ true =
        λ c. once_one (seen c) (omega (arith, (counts c).counted, h.one_each c)) in
      (i, rw (e, require_all_complete all_commands seen every) refl),
)
