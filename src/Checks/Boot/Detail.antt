-- ===== src/Checks/Boot/Detail.antt =====
-- What is said of a boot order that was not inspected to its end fits the detail of a result.
use bythos.Base.{
  ℕ, ◌+◌, ◌-◌, ◌≤◌, ◌<◌, ◌≡◌, refl, ◌∙◌, Bool, true, false, Option, none, some, List, [], ◌∷◌, ◌++◌,
  arith, Bytes, codes, length, leb, if◌then◌else◌, length-append, take_all, append_assoc,
  append-nil, sym, Bool-cases, Option-cases, inl, inr,
}
use bythos.Posture.Types.{detail_max}
use bythos.Efi.DevicePath.{BootType, type_unknown, type_disk, type_cd, type_usb, type_network}
use bythos.Efi.Entry.{BootEntry}
use bythos.Runtime.Host.{Host}
use bythos.Checks.Boot.{
  Listing, append_entry_id, append_unclassified_entry, append_text, append_listing,
  describe_incomplete_order, compose_blocked_detail, read_boot_entry,
}
use bythos.Checks.Boot.Order.{OrderScan, no_scan, extend, add_id, scan_entry, scan_order}

-- The clause on the entries of one kind, in full.
abbrev pub clause : Bytes → Listing → Bytes
clause title listing = elim (listing.entries) [
  | [] ↦ []
  | c ∷ s ↦ title ++ (c ∷ s ++ (if listing.all_listed then [] else codes " and more"))
]

abbrev pub full_description : Listing → Listing → Bool → Bytes
full_description unreadable unclassified capped =
    codes "boot order not fully inspected"
    ++ (clause (codes "; unreadable: ") unreadable
        ++ (clause (codes "; unclassified: ") unclassified
            ++ (if capped then codes "; list shortened at 32 entries" else [])))

not_leb : (a b : ℕ) → b < a → leb a b ≡ false
not_leb a b h = ground arith

append_text-fits :
    (size : ℕ) (text out : Bytes)
    → length out + length text < size
    → append_text size text out ≡ out ++ text
unfolding append_text
append_text-fits size text out h =
    let room : leb size (length out) ≡ false = ground arith in
    rw room (take_all (size - 1) (out ++ text) (omega (arith, length-append out text)))

-- The lists stay below the sizes of their buffers.
pub record ListsFit (scan : OrderScan) : Type 0 where
  pub unreadable_fits : length scan.unreadable.entries ≤ 40
  pub unclassified_fits : length scan.unclassified.entries ≤ 63

abbrev entries_length : Option Bytes → ℕ
entries_length none = 0
entries_length (some text) = length text

guarded-fits :
    (n size : ℕ) (list item : Bytes)
    → 0 < size
    → entries_length (
        if leb n (length item)
        then none
        else if leb size (length list + length item)
        then none
        else some (list ++ item))
      < size
guarded-fits n size list item h = ground (arith, length-append list item)

append_entry_id-fits :
    (list : Bytes) (size id : ℕ) → 0 < size → entries_length (append_entry_id list size id) < size
unfolding append_entry_id
append_entry_id-fits list size id h = guarded-fits 16 size list _ h

append_unclassified_entry-fits :
    (list : Bytes) (size id : ℕ) (description : Bytes)
    → 0 < size
    → entries_length (append_unclassified_entry list size id description) < size
unfolding append_unclassified_entry
append_unclassified_entry-fits list size id description h = guarded-fits 64 size list _ h

extend-fits :
    (size : ℕ) (text : Option Bytes) (listing : Listing)
    → length listing.entries ≤ size
    → entries_length text ≤ size
    → length (extend text listing).entries ≤ size
extend-fits size none listing h k = h
extend-fits size (some text) listing h k = k

scan_active-ListsFit :
    (number : ℕ) (entry : BootEntry) (scan : OrderScan) (type : BootType)
    → entry.active ≡ true
    → entry.type ≡ type
    → ListsFit scan
    → ListsFit (scan_entry number (some entry) scan)
unfolding scan_entry
scan_active-ListsFit number entry scan type_unknown active e fits =
    rw (active, e)
      (record {
        unreadable_fits = fits.unreadable_fits;
        unclassified_fits =
            extend-fits 63
              (append_unclassified_entry scan.unclassified.entries 64 number entry.description)
              scan.unclassified fits.unclassified_fits
              (omega (
                arith,
                append_unclassified_entry-fits scan.unclassified.entries 64 number entry.description
                    (omega arith),
              ));
      })
scan_active-ListsFit number entry scan type_disk active e fits = rw (active, e) fits
scan_active-ListsFit number entry scan type_cd active e fits =
    rw (active, e)
      (record {
        unreadable_fits = fits.unreadable_fits;
        unclassified_fits = fits.unclassified_fits;
      })
scan_active-ListsFit number entry scan type_usb active e fits =
    rw (active, e)
      (record {
        unreadable_fits = fits.unreadable_fits;
        unclassified_fits = fits.unclassified_fits;
      })
scan_active-ListsFit number entry scan type_network active e fits =
    rw (active, e)
      (record {
        unreadable_fits = fits.unreadable_fits;
        unclassified_fits = fits.unclassified_fits;
      })

scan_entry-ListsFit :
    (number : ℕ) (entry : Option BootEntry) (scan : OrderScan)
    → ListsFit scan
    → ListsFit (scan_entry number entry scan)
unfolding scan_entry add_id
scan_entry-ListsFit number none scan fits = record {
  unreadable_fits =
      extend-fits 40 (append_entry_id scan.unreadable.entries 41 number) scan.unreadable
        fits.unreadable_fits
        (omega (arith, append_entry_id-fits scan.unreadable.entries 41 number (omega arith)));
  unclassified_fits = fits.unclassified_fits;
}
scan_entry-ListsFit number (some entry) scan fits = elim (Bool-cases entry.active) [
  | inr inactive ↦ rw inactive fits
  | inl active ↦ scan_active-ListsFit number entry scan entry.type active refl fits
]

pub scan_order-ListsFit :
    (host : Host) (numbers : List ℕ) (start scan : OrderScan)
    → scan_order host numbers start ≡ some scan
    → ListsFit start
    → ListsFit scan
unfolding scan_order
scan_order-ListsFit host [] start scan h fits = let e : start ≡ scan = cc in rw e at fits
scan_order-ListsFit host (number ∷ numbers) start scan h fits =
    elim (Option-cases (read_boot_entry host number)) [
      | inl fault ↦ absurd cc
      | inr (entry, e) ↦
          scan_order-ListsFit host numbers (scan_entry number entry start) scan
            (rw (e, scan_order) at h) (scan_entry-ListsFit number entry start fits)
    ]

abbrev listing_of : Bool → Bytes → Bool → Listing
listing_of found entries all_listed = record {
  found = found;
  entries = entries;
  all_listed = all_listed;
}

append_listing-clause_of :
    (size : ℕ) (title : Bytes) (found : Bool) (entries : Bytes) (all_listed : Bool) (out : Bytes)
    → length out + length title + length entries + 9 < size
    → append_listing size title (listing_of found entries all_listed) out
      ≡ out ++ clause title (listing_of found entries all_listed)
unfolding append_listing codes
append_listing-clause_of size title found [] all_listed out h = sym (append-nil out)
append_listing-clause_of size title found (c ∷ s) true out h =
    rw
      (
        append_text-fits size title out (omega arith),
        append_text-fits size (c ∷ s) (out ++ title) (omega (arith, length-append out title)),
        append-nil s,
      )
      (append_assoc out title (c ∷ s))
append_listing-clause_of size title found (c ∷ s) false out h =
    rw
      (
        append_text-fits size title out (omega arith),
        append_text-fits size (c ∷ s) (out ++ title) (omega (arith, length-append out title)),
        append_text-fits size (codes " and more") ((out ++ title) ++ c ∷ s)
            (omega (arith, length-append (out ++ title) (c ∷ s), length-append out title)),
      )
      (append_assoc (out ++ title) (c ∷ s) (codes " and more")
        ∙ append_assoc out title (c ∷ s ++ codes " and more"))

append_listing-clause :
    (size : ℕ) (title : Bytes) (listing : Listing) (out : Bytes)
    → length out + length title + length listing.entries + 9 < size
    → append_listing size title listing out ≡ out ++ clause title listing
append_listing-clause size title listing out h =
    append_listing-clause_of size title listing.found listing.entries listing.all_listed out h

length-clause_of :
    (title : Bytes) (found : Bool) (entries : Bytes) (all_listed : Bool)
    → length (clause title (listing_of found entries all_listed))
      ≤ length title + length entries + 9
unfolding codes
length-clause_of title found [] all_listed = omega arith
length-clause_of title found (c ∷ s) true =
    omega (arith, length-append title (c ∷ s ++ []), length-append s [])
length-clause_of title found (c ∷ s) false =
    omega
      (arith, length-append title (c ∷ s ++ codes " and more"), length-append s (codes " and more"))

length-clause :
    (title : Bytes) (listing : Listing)
    → length (clause title listing) ≤ length title + length listing.entries + 9
length-clause title listing =
    length-clause_of title listing.found listing.entries listing.all_listed

-- The parts of the description one behind the other.
described :
    (start first second last : Bytes)
    → ((start ++ first) ++ second) ++ last ≡ start ++ (first ++ (second ++ last))
described start first second last =
    append_assoc (start ++ first) second last ∙ append_assoc start first (second ++ last)

-- The two listings behind a start.
append_listings-clauses :
    (size : ℕ) (start t1 t2 : Bytes) (l1 l2 : Listing)
    → length start + (length t1 + length l1.entries + 9) + (length t2 + length l2.entries + 9)
      < size
    → append_listing size t2 l2 (append_listing size t1 l1 start)
      ≡ (start ++ clause t1 l1) ++ clause t2 l2
append_listings-clauses size start t1 t2 l1 l2 h =
    rw (append_listing-clause size t1 l1 start (omega arith)) (
      append_listing-clause size t2 l2 (start ++ clause t1 l1)
        (omega (arith, length-append start (clause t1 l1), length-clause t1 l1)))

pub describe_incomplete_order-full :
    (unreadable unclassified : Listing) (capped : Bool)
    → length unreadable.entries ≤ 40
    → length unclassified.entries ≤ 63
    → describe_incomplete_order detail_max unreadable unclassified capped
      ≡ full_description unreadable unclassified capped
unfolding describe_incomplete_order codes
describe_incomplete_order-full unreadable unclassified capped h k =
    let start = codes "boot order not fully inspected" in
    let t1 = codes "; unreadable: " in
    let t2 = codes "; unclassified: " in
    let first = clause t1 unreadable in
    let second = clause t2 unclassified in
    let last = codes "; list shortened at 32 entries" in
    let both =
      append_listings-clauses detail_max start t1 t2 unreadable unclassified (omega arith) in
    let started = append_text-fits detail_max start [] (omega arith) in
    elim (Bool-cases capped) [
      | inr whole ↦
          rw (whole, started, both)
            (sym (append-nil ((start ++ first) ++ second)) ∙ described start first second [])
      | inl cut ↦
          rw (cut, started, both)
            (append_text-fits detail_max last ((start ++ first) ++ second) (
                omega (
                  arith,
                  length-append (start ++ first) second,
                  length-append start first,
                  length-clause t1 unreadable,
                  length-clause t2 unclassified,
                ))
              ∙ described start first second last)
    ]

length-full_description :
    (unreadable unclassified : Listing) (capped : Bool)
    → length (full_description unreadable unclassified capped)
      ≤ length unreadable.entries + length unclassified.entries + 108
unfolding codes
length-full_description unreadable unclassified capped =
    let first = clause (codes "; unreadable: ") unreadable in
    let second = clause (codes "; unclassified: ") unclassified in
    let last = if capped then codes "; list shortened at 32 entries" else [] in
    let short : length last ≤ 30 = ground arith in
    omega (
      arith,
      length-clause (codes "; unreadable: ") unreadable,
      length-clause (codes "; unclassified: ") unclassified,
      length-append (codes "boot order not fully inspected") (first ++ (second ++ last)),
      length-append first (second ++ last),
      length-append second last,
    )

-- The detail of a medium whose presence is not known: nothing of it is cut off.
abbrev pub unconfirmed : Bytes → Bytes → Bytes
unconfirmed blocked medium = blocked ++ (codes "; " ++ (medium ++ codes " presence unconfirmed"))

-- Whatever the entries of a boot order are, if reading them stays inside their variables, what is
-- said of a medium of at most 7 letters where the order was not inspected to its end is the whole
-- description with the clause on the medium behind it, and it fits the detail with its NUL.
pub compose_blocked_detail-full :
    (host : Host) (numbers : List ℕ) (scan : OrderScan) (capped : Bool) (medium : Bytes)
    → scan_order host numbers no_scan ≡ some scan
    → length medium ≤ 7
    → let blocked = describe_incomplete_order detail_max scan.unreadable scan.unclassified capped in
      let full = unconfirmed (full_description scan.unreadable scan.unclassified capped) medium in
      (compose_blocked_detail detail_max blocked medium ≡ full) × (length full < detail_max)
unfolding compose_blocked_detail codes
compose_blocked_detail-full host numbers scan capped medium h short =
    let fits =
      scan_order-ListsFit host numbers no_scan scan h
        (record { unreadable_fits = omega arith; unclassified_fits = omega arith }) in
    let full = full_description scan.unreadable scan.unclassified capped in
    let behind = codes "; " ++ (medium ++ codes " presence unconfirmed") in
    let room : length (full ++ behind) < detail_max = omega (
      arith,
      length-append full behind,
      length-append medium (codes " presence unconfirmed"),
      length-full_description scan.unreadable scan.unclassified capped,
      fits.unreadable_fits,
      fits.unclassified_fits,
    ) in
    rw
      (
        describe_incomplete_order-full scan.unreadable scan.unclassified capped fits.unreadable_fits
            fits.unclassified_fits,
        not_leb detail_max (length (full ++ behind)) room,
      )
      (refl, room)
