-- ===== src/Store/Runs/Checks/Laws.antt =====
-- About crates/evalhub-store/src/runs.rs: the elements that pass the checks on a batch.
use evalhub.Base.{
  ℕ, ◌+◌, String, ◌≡◌, ◌↔◌, ◌⊎◌, refl, ap, ◌∙◌, false, Option, none, some, List, [], ◌∷◌, ◌++◌, inl,
  inr, arith, Option-cases,
}
use evalhub.Base.Lists.{All, append-eq-nil}
use evalhub.Json.{Value}
use evalhub.Core.Facets.{materialise}
use evalhub.Core.Validate
use evalhub.Store.Db.{RunRow, AttachmentRow, Db, RunRejection, ok}
use evalhub.Store.Db.Crates.{Crates}
use evalhub.Store.Runs.{find_run}
use evalhub.Store.Runs.Prepare.{Checked, prepare, decode_attachments}
use evalhub.Store.Runs.Checks.{
  RunInput, is_deleted, Slot, filled, refused, duplicate_entry, deleted_entry, element_errors,
  prepared, check_element, next_slot, check_elements, settle, accept, missing_entries, ready_slots,
  passed, rejections, check_batch,
}

List-cases {ℓ} : {A : Type ℓ} (xs : List A) → (xs ≡ []) ⊎ ((x : A) × (ys : List A) × (xs ≡ x ∷ ys))
List-cases [] = inl refl
List-cases (x ∷ xs) = inr (x, xs, refl)

-- A prepared run goes under the id of its element.
pub prepare-run_id :
    (c : Crates) (run_id : String) (body : Value) (attachments : List (String × ℕ)) (k : Checked)
    → prepare c run_id body attachments ≡ some k
    → k.run_id ≡ run_id
unfolding prepare
prepare-run_id c run_id body attachments k h = ground arith

accept-ok :
    (rs : List RunRejection) (checked ks : List Checked)
    → accept rs checked ≡ ok ks
    → (rs ≡ []) × (checked ≡ ks)
accept-ok [] checked ks h = (refl, ground arith)
accept-ok (r ∷ rs) checked ks h = absurd (ground arith)

next_slot-inv :
    (a : Option Slot) (b : Option (List Slot)) (slots : List Slot)
    → next_slot a b ≡ some slots
    → (slot : Slot) × (rest : List Slot) × (a ≡ some slot) × (b ≡ some rest) × (slots ≡ slot ∷ rest)
next_slot-inv none b slots h = absurd (ground arith)
next_slot-inv (some slot) none slots h = absurd (ground arith)
next_slot-inv (some slot) (some rest) slots h = (slot, rest, refl, refl, ground arith)

module _ (c : Crates) (existing : List RunRow) (attachments : List AttachmentRow) (r : ℕ)
    (header : Value) where
  -- An element with nothing wrong with it, prepared as `k`, after elements with the ids `seen`.
  abbrev pub Passes : List String → RunInput → Checked → Type 0
  Passes seen input k =
      (element_errors c existing r header seen input ≡ [])
      × (prepared c input (materialise input.body header) ≡ some k)
      × (missing_entries attachments k ≡ [])

  abbrev pub AllPass : List String → List RunInput → List Checked → Type 0
  AllPass seen [] [] = Unit
  AllPass seen (input ∷ inputs) (k ∷ ks) =
      Passes seen input k × AllPass (input.run_id ∷ seen) inputs ks
  AllPass seen _ _ = ⊥

  -- A slot that is filled holds the element as prepared, and nothing is wrong with it.
  check_element-filled :
      (at : ℕ) (seen : List String) (input : RunInput) (k : Checked)
      → check_element c existing r header at seen input ≡ some (filled k)
      → (element_errors c existing r header seen input ≡ [])
        × (prepared c input (materialise input.body header) ≡ some k)
  unfolding check_element
  check_element-filled at seen input k h =
      elim (List-cases (element_errors c existing r header seen input)) [
        | inr (e, es, ee) ↦ absurd (let x = rw ee at h in ground arith)
        | inl ee ↦ elim (Option-cases (prepared c input (materialise input.body header))) [
          | inl ep ↦ absurd (let x = rw (ee, ep) at h in ground arith)
          | inr (k', ep) ↦ (ee, ep ∙ ap some (let x = rw (ee, ep) at h in ground arith))
        ]
      ]

  -- One element more.
  cons-AllPass :
      (input : RunInput) (inputs : List RunInput) (seen : List String) (at from : ℕ) (slot : Slot)
      (slots : List Slot)
      → check_element c existing r header at seen input ≡ some slot
      → (rejections (ready_slots attachments (from + 1) slots) ≡ []
          → AllPass
              (input.run_id ∷ seen)
              inputs
              (passed (ready_slots attachments (from + 1) slots)))
      → rejections (ready_slots attachments from (slot ∷ slots)) ≡ []
      → AllPass seen (input ∷ inputs) (passed (ready_slots attachments from (slot ∷ slots)))
  unfolding rejections ready_slots passed
  cons-AllPass input inputs seen at from (refused e) slots h more clean = absurd (ground arith)
  cons-AllPass input inputs seen at from (filled k) slots h more clean =
      elim (List-cases (missing_entries attachments k)) [
        | inr (e, es, em) ↦ absurd (let x = rw em at clean in ground arith)
        | inl em ↦
            let (ee, ep) = check_element-filled at seen input k h in
            rw em ((ee, ep, em), more (rw em at clean))
      ]

  elements-AllPass :
      (inputs : List RunInput) (seen : List String) (at from : ℕ) (slots : List Slot)
      → check_elements c existing r header at seen inputs ≡ some slots
      → rejections (ready_slots attachments from slots) ≡ []
      → AllPass seen inputs (passed (ready_slots attachments from slots))
  unfolding check_elements passed ready_slots
  elements-AllPass [] seen at from slots h clean =
      let is : [] ≡ slots = ground arith in rw (← is) tt
  elements-AllPass (input ∷ inputs) seen at from slots h clean =
      let (slot, rest, a, b, e) =
        next_slot-inv (check_element c existing r header at seen input)
          (check_elements c existing r header (at + 1) (input.run_id ∷ seen) inputs) slots h in
      rw e (
        cons-AllPass input inputs seen at from slot rest a
          (elements-AllPass inputs (input.run_id ∷ seen) (at + 1) (from + 1) rest b)
          (rw e at clean))

  AllPass-elements :
      (inputs : List RunInput) (seen : List String) (at from : ℕ) (ks : List Checked)
      → AllPass seen inputs ks
      → (slots : List Slot) × (check_elements c existing r header at seen inputs ≡ some slots)
        × (rejections (ready_slots attachments from slots) ≡ [])
        × (passed (ready_slots attachments from slots) ≡ ks)
  unfolding check_elements check_element rejections ready_slots passed
  AllPass-elements [] seen at from [] h = ([], refl, refl, refl)
  AllPass-elements [] seen at from (k ∷ ks) h = elim h [ ]
  AllPass-elements (input ∷ inputs) seen at from [] h = elim h [ ]
  AllPass-elements (input ∷ inputs) seen at from (k ∷ ks) ((clean, prep, ready), more) =
      let (slots, a, b, d) =
        AllPass-elements inputs (input.run_id ∷ seen) (at + 1) (from + 1) ks more in
      (filled k ∷ slots, rw (clean, prep, a) refl, rw ready b, rw ready (ap (λ l. k ∷ l) d))

module _ (c : Crates) (db : Db) (r : ℕ) (header : Value) where
  pub check_batch_iff :
      (inputs : List RunInput) (ks : List Checked)
      → (check_batch c db r header inputs ≡ ok ks)
        ↔ AllPass c db.runs db.attachments r header [] inputs ks
  unfolding check_batch
  check_batch_iff inputs ks = (to, from)
    where
      to :
          settle db.attachments (check_elements c db.runs r header 0 [] inputs) ≡ ok ks
          → AllPass c db.runs db.attachments r header [] inputs ks
      to h = elim (Option-cases (check_elements c db.runs r header 0 [] inputs)) [
        | inl e ↦ absurd (let x = rw e at h in ground arith)
        | inr (slots, e) ↦
            let settled = rw e at h in
            let (clean, is) =
              accept-ok (rejections (ready_slots db.attachments 0 slots))
                (passed (ready_slots db.attachments 0 slots)) ks settled in
            rw (← is)
              (elements-AllPass c db.runs db.attachments r header inputs [] 0 0 slots e clean)
      ]

      from :
          AllPass c db.runs db.attachments r header [] inputs ks
          → settle db.attachments (check_elements c db.runs r header 0 [] inputs) ≡ ok ks
      from h =
          let (slots, e, clean, pass) =
            AllPass-elements c db.runs db.attachments r header inputs [] 0 0 ks h in
          rw (e, clean, pass) refl

module _ (c : Crates) (existing : List RunRow) (attachments : List AttachmentRow) (r : ℕ)
    (header : Value) where
  -- An element that passes does not name a deleted run.
  Passes-alive :
      (seen : List String) (input : RunInput) (k : Checked)
      → Passes c existing attachments r header seen input k
      → is_deleted (find_run r k.run_id existing) ≡ false
  unfolding element_errors
  Passes-alive seen input k (clean, prep, ready) =
      rw
        (prepare-run_id c input.run_id (materialise input.body header)
          (decode_attachments c (materialise input.body header)).0 k prep)
        (let body = materialise input.body header in
          let (a, h1) =
            append-eq-nil (duplicate_entry seen input)
              (Validate.run c.validators input.run_id body
                ++ ((decode_attachments c body).1 ++ deleted_entry existing r input))
              clean in
          let (b, h2) =
            append-eq-nil (Validate.run c.validators input.run_id body)
              ((decode_attachments c body).1 ++ deleted_entry existing r input) h1 in
          let (d, h3) =
            append-eq-nil (decode_attachments c body).1 (deleted_entry existing r input) h2 in
          ground arith)

  pub AllPass-alive :
      (inputs : List RunInput) (seen : List String) (ks : List Checked)
      → AllPass c existing attachments r header seen inputs ks
      → All (λ k. is_deleted (find_run r k.run_id existing) ≡ false) ks
  AllPass-alive [] seen [] h = tt
  AllPass-alive [] seen (k ∷ ks) h = elim h [ ]
  AllPass-alive (input ∷ inputs) seen [] h = elim h [ ]
  AllPass-alive (input ∷ inputs) seen (k ∷ ks) (h, hs) =
      (Passes-alive seen input k h, AllPass-alive inputs (input.run_id ∷ seen) ks hs)
