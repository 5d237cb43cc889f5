-- ===== src/Checks/Boot/Verdict.antt =====
-- When the boot order is said to hold nothing on USB.
use bythos.Base.{
  ℕ, ◌≡◌, ◌↔◌, refl, sym, ◌∙◌, ap, Bool, true, false, not, ◌&&◌, ◌||◌, Option, none, some, List, [],
  ◌∷◌, arith, Bytes, codes, All, Bool-cases, Option-cases, inl, inr,
}
use bythos.Posture.Types.{check_ok, emit, emit_skip, make_result, make_skip}
use bythos.Efi.DevicePath.{BootType, type_unknown, type_disk, type_cd, type_usb, type_network}
use bythos.Efi.Entry.{BootEntry}
use bythos.Runtime.Host.{Host}
use bythos.Checks.Boot.{Listing, read_boot_entry}
use bythos.Checks.Boot.Order.{
  OrderScan, no_scan, extend, add_id, scan_entry, scan_order, blocked_detail, medium_result,
}
use bythos.Checks.Boot.Detail.{describe_incomplete_order-full, scan_order-ListsFit, ListsFit}

-- Is the entry one that boots from USB, or of a kind that is not known?
abbrev pub on_usb : BootType → Bool
on_usb type_usb = true
on_usb type_unknown = true
on_usb _ = false

abbrev pub is_threat : BootEntry → Bool
is_threat entry = entry.active && on_usb entry.type

-- The entry can be read, and it is none that may boot from USB.
abbrev pub IsHarmless : Host → ℕ → Type 0
IsHarmless host number =
    (entry : BootEntry) × (read_boot_entry host number ≡ some (some entry))
    × (is_threat entry ≡ false)

-- Nothing has been seen that stands against a good verdict on USB.
abbrev is_clean : OrderScan → Bool
is_clean scan = not scan.usb.found && (not scan.unreadable.found && not scan.unclassified.found)

abbrev is_harmless : Option BootEntry → Bool
is_harmless none = false
is_harmless (some entry) = not (is_threat entry)

extend-found : (text : Option Bytes) (listing : Listing) → (extend text listing).found ≡ true
extend-found none listing = refl
extend-found (some text) listing = refl

scan_active-clean :
    (number : ℕ) (entry : BootEntry) (scan : OrderScan) (type : BootType)
    → entry.active ≡ true
    → entry.type ≡ type
    → is_clean (scan_entry number (some entry) scan) ≡ is_clean scan && not (on_usb type)
unfolding scan_entry add_id
scan_active-clean number entry scan type_unknown active e =
    rw (active, e, extend-found) (ground arith)
scan_active-clean number entry scan type_disk active e = rw (active, e) (ground arith)
scan_active-clean number entry scan type_cd active e = rw (active, e) (ground arith)
scan_active-clean number entry scan type_usb active e = rw (active, e, extend-found) (ground arith)
scan_active-clean number entry scan type_network active e = rw (active, e) (ground arith)

scan_entry-clean :
    (number : ℕ) (entry : Option BootEntry) (scan : OrderScan)
    → is_clean (scan_entry number entry scan) ≡ is_clean scan && is_harmless entry
unfolding scan_entry add_id
scan_entry-clean number none scan = rw extend-found (ground arith)
scan_entry-clean number (some entry) scan = elim (Bool-cases entry.active) [
  | inl active ↦
      scan_active-clean number entry scan entry.type active refl
      ∙ ap (λ (b : Bool). is_clean scan && not b) (rw active refl)
  | inr inactive ↦ rw inactive (ground arith)
]

harmless_sound :
    (o : Option BootEntry)
    → is_harmless o ≡ true
    → (entry : BootEntry) × (o ≡ some entry) × (is_threat entry ≡ false)
harmless_sound none h = absurd cc
harmless_sound (some entry) h = (entry, refl, ground arith)

and_both : (a b : Bool) → a && b ≡ true → (a ≡ true) × (b ≡ true)
and_both true b h = (refl, h)
and_both false b h = absurd cc

scan_order-clean :
    (host : Host) (numbers : List ℕ) (start scan : OrderScan)
    → scan_order host numbers start ≡ some scan
    → (is_clean scan ≡ true) ↔ ((is_clean start ≡ true) × All (IsHarmless host) numbers)
unfolding scan_order
scan_order-clean host [] start scan h = let e : start ≡ scan = cc in rw e ((λ k. (k, tt)), λ k. k.0)
scan_order-clean host (number ∷ numbers) start scan h =
    elim (Option-cases (read_boot_entry host number)) [
      | inl fault ↦ absurd cc
      | inr (answer, e) ↦
          let (to, from) =
            scan_order-clean host numbers (scan_entry number answer start) scan
              (rw (e, scan_order) at h) in
          let step = scan_entry-clean number answer start in
          (
            (λ k.
                let (c, rest) = to k in
                let (clean, harmless) =
                  and_both (is_clean start) (is_harmless answer) (sym step ∙ c) in
                let (entry, is_entry, safe) = harmless_sound answer harmless in
                (clean, ((entry, (e ∙ ap some is_entry), safe), rest))),
            (λ k.
                let (clean, ((entry, is_entry, safe), rest)) = k in
                let answered : answer ≡ some entry = cc in
                from (step ∙ rw (clean, answered, safe) refl, rest)),
          )
    ]

abbrev pub usb_name : Bytes
usb_name = codes "EFI USB boot"

-- A description of an unfinished inspection is not empty.
abbrev is_empty : Bytes → Bool
is_empty [] = true
is_empty (c ∷ s) = false

blocked_detail-is_empty :
    (scan : OrderScan) (capped : Bool)
    → ListsFit scan
    → is_empty (blocked_detail scan capped)
      ≡ not (scan.unreadable.found || capped || scan.unclassified.found)
unfolding blocked_detail codes
blocked_detail-is_empty scan capped fits =
    elim (Bool-cases (scan.unreadable.found || capped || scan.unclassified.found)) [
      | inl blocked ↦
          rw
            (
              blocked,
              describe_incomplete_order-full scan.unreadable scan.unclassified capped
                  fits.unreadable_fits fits.unclassified_fits,
            )
            refl
      | inr whole ↦ rw whole refl
    ]

-- A medium passes where no entry was found and nothing stood in the way.
medium_result-passes :
    (name medium : Bytes) (listing : Listing) (blocked : Bytes)
    → ((medium_result name medium listing blocked).state ≡ check_ok)
      ↔ (not listing.found && is_empty blocked ≡ true)
unfolding medium_result emit emit_skip make_skip make_result
medium_result-passes name medium listing [] = elim (Bool-cases listing.found) [
  | inl found ↦ rw found ((λ h. absurd cc), λ h. absurd cc)
  | inr none_found ↦ rw none_found ((λ h. refl), λ h. refl)
]
medium_result-passes name medium listing (c ∷ s) = elim (Bool-cases listing.found) [
  | inl found ↦ rw found ((λ h. absurd cc), λ h. absurd cc)
  | inr none_found ↦ rw none_found ((λ h. absurd cc), λ h. absurd cc)
]

clean_and_whole :
    (scan : OrderScan) (capped : Bool)
    → not scan.usb.found && not (scan.unreadable.found || capped || scan.unclassified.found)
      ≡ is_clean scan && not capped
clean_and_whole scan capped = ground arith

-- Where reading the entries of the order stays inside their variables, the row on USB passes exactly
-- if the order was not cut short and every entry of it can be read and is inactive or of a kind that
-- is known and not USB.
pub medium_result-IsHarmless :
    (host : Host) (numbers : List ℕ) (scan : OrderScan) (capped : Bool)
    → scan_order host numbers no_scan ≡ some scan
    → ((medium_result usb_name (codes "USB") scan.usb (blocked_detail scan capped)).state
        ≡ check_ok)
      ↔ ((capped ≡ false) × All (IsHarmless host) numbers)
medium_result-IsHarmless host numbers scan capped h =
    let fits =
      scan_order-ListsFit host numbers no_scan scan h
        (record { unreadable_fits = omega arith; unclassified_fits = omega arith }) in
    let (passes, passed) =
      medium_result-passes usb_name (codes "USB") scan.usb (blocked_detail scan capped) in
    let (cleaned, cleans) = scan_order-clean host numbers no_scan scan h in
    let same =
      ap (λ (b : Bool). not scan.usb.found && b) (blocked_detail-is_empty scan capped fits)
      ∙ clean_and_whole scan capped in
    (
      (λ ok.
          let (clean, whole) = and_both (is_clean scan) (not capped) (sym same ∙ passes ok) in
          (ground arith, (cleaned clean).1)),
      (λ k. let (whole, harmless) = k in passed (same ∙ rw (cleans (refl, harmless), whole) refl)),
    )
