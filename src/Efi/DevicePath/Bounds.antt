-- ===== src/Efi/DevicePath/Bounds.antt =====
-- The walks over a device path end, and never read outside the path that they were given.
use bythos.Base.{
  ℕ, zero, suc, ◌+◌, ◌-◌, ◌≤◌, ◌<◌, ◌≡◌, refl, ◌||◌, ◌&&◌, Option, none, some, [], ◌∷◌, ◌++◌, arith,
  Bytes, All, All-append, All-take, length, length-append, length-take, length-drop, take, drop,
  get_elem?-lt, ltb, leb, ltb→lt, leb→le, ◌==◌, if◌then◌else◌, Bool-cases, inl, inr,
}
use bythos.Efi.Reads.{read_le16-some}
use bythos.Efi.DevicePath.{
  BootType, utf16_loop, utf16le_to_ascii, classify_node, classify_from, classify_device_path,
  filepath_from, is_end_node, dp_extract_filepath,
}

abbrev pub IsAscii : ℕ → Type 0
IsAscii c = (0 < c) × (c < 128)

-- The computation ends with a text of at most `room` bytes, each a non-NUL ASCII byte.
pub record GivesText (room : ℕ) (m : Option Bytes) : Type 0 where
  pub text : Bytes
  pub given : m ≡ some text
  pub fits : length text ≤ room
  pub ascii : All IsAscii text

utf16_loop-GivesText :
    (room : ℕ) (src : Bytes) (src_bytes si : ℕ)
    → src_bytes ≤ length src
    → GivesText room (utf16_loop room src src_bytes si)
unfolding utf16_loop
utf16_loop-GivesText zero src src_bytes si h = record {
  text = [];
  given = refl;
  fits = omega arith;
  ascii = tt;
}
utf16_loop-GivesText (suc room) src src_bytes si h = elim (Bool-cases (ltb (si + 1) src_bytes)) [
  | inr over ↦ rw over (record { text = []; given = refl; fits = omega arith; ascii = tt })
  | inl more ↦
      let (code, e) = read_le16-some src si (omega (arith, ltb→lt (si + 1) src_bytes more)) in
      elim (Bool-cases (code == 0)) [
        | inl nul ↦
            rw (more, e, nul) (record { text = []; given = refl; fits = omega arith; ascii = tt })
        | inr some_code ↦
            let rest = utf16_loop-GivesText room src src_bytes (si + 2) h in
            rw (more, e, some_code, rest.given)
              (record {
                text = (if ltb code 128 then code else b'?') ∷ rest.text;
                given = refl;
                fits = omega (arith, rest.fits);
                ascii = (ground arith, rest.ascii);
              })
      ]
]

-- The text taken from UTF-16 is ASCII, holds no NUL, and leaves room for one in the destination.
pub utf16le_to_ascii-GivesText :
    (src : Bytes) (src_bytes dst_size : ℕ)
    → src_bytes ≤ length src
    → GivesText (dst_size - 1) (utf16le_to_ascii src src_bytes dst_size)
unfolding utf16le_to_ascii
utf16le_to_ascii-GivesText src src_bytes dst_size h =
    utf16_loop-GivesText (dst_size - 1) src src_bytes 0 h

classify_node-some :
    (dp : Bytes) (dp_len offset type subtype : ℕ)
    → dp_len ≤ length dp
    → (found : Option BootType) × (classify_node dp dp_len offset type subtype ≡ some found)
unfolding classify_node
classify_node-some dp dp_len offset type subtype h =
    elim (Bool-cases (type == 0x05 && subtype == 0x01 && leb (offset + 6) dp_len)) [
      | inl bbs ↦
          let (v, e) = read_le16-some dp (offset + 4) (ground arith) in rw (bbs, e) (_, refl)
      | inr other ↦ rw other (_, refl)
    ]

found_or-some :
    (found rest : Option BootType) (t : BootType)
    → rest ≡ some t
    → (u : BootType) × (elim found [ some b ↦ some b | none ↦ rest ] ≡ some u)
found_or-some none rest t e = (t, e)
found_or-some (some b) rest t e = (b, refl)

classify_from-some :
    (fuel : ℕ) (dp : Bytes) (dp_len offset : ℕ)
    → dp_len ≤ length dp
    → 0 < fuel
    → dp_len < fuel + offset
    → (t : BootType) × (classify_from fuel dp dp_len offset ≡ some t)
unfolding classify_from
classify_from-some zero dp dp_len offset h pos enough = absurd (omega arith)
classify_from-some (suc fuel) dp dp_len offset h pos enough =
    elim (Bool-cases (leb (offset + 4) dp_len)) [
      | inr over ↦ rw over (_, refl)
      | inl more ↦
          let inside : offset + 4 ≤ dp_len = leb→le _ _ more in
          let (type, e0) = get_elem?-lt dp offset (omega arith) in
          let (subtype, e1) = get_elem?-lt dp (offset + 1) (omega arith) in
          let (node_len, e2) = read_le16-some dp (offset + 2) (omega arith) in
          elim (Bool-cases (ltb node_len 4 || is_end_node type subtype)) [
            | inl last ↦ rw (more, e0, e1, e2, last) (_, refl)
            | inr on ↦
                let long : 4 ≤ node_len = ground arith in
                let (found, e3) = classify_node-some dp dp_len offset type subtype h in
                let (t, e4) =
                  classify_from-some fuel dp dp_len (offset + node_len) h (omega arith)
                    (omega arith) in
                rw (more, e0, e1, e2, on, e3) (found_or-some found _ t e4)
          ]
    ]

-- The walk gives a type whatever the bytes are: it never reads outside the path, and it ends.
pub classify_device_path-some :
    (dp : Bytes) (dp_len : ℕ)
    → dp_len ≤ length dp
    → (t : BootType) × (classify_device_path dp dp_len ≡ some t)
unfolding classify_device_path
classify_device_path-some dp dp_len h =
    classify_from-some (suc dp_len) dp dp_len 0 h (omega arith) (omega arith)

-- The part of a segment that is copied: what fits before the NUL.
append-fits :
    (size : ℕ) (out seg : Bytes)
    → length out ≤ size
    → length (out ++ take (size - length out) seg) ≤ size
append-fits size out seg h =
    omega
      (arith, length-append out (take (size - length out) seg), length-take (size - length out) seg)

filepath_from-GivesText :
    (fuel : ℕ) (dp : Bytes) (dp_len out_size offset : ℕ) (out : Bytes)
    → dp_len ≤ length dp
    → 0 < fuel
    → dp_len < fuel + offset
    → length out ≤ out_size - 1
    → All IsAscii out
    → GivesText (out_size - 1) (filepath_from fuel dp dp_len out_size offset out)
unfolding filepath_from
filepath_from-GivesText zero dp dp_len out_size offset out h pos enough fits ascii =
    absurd (omega arith)
filepath_from-GivesText (suc fuel) dp dp_len out_size offset out h pos enough fits ascii =
    elim (Bool-cases (leb (offset + 4) dp_len)) [
      | inr over ↦ rw over (record { text = out; given = refl; fits = fits; ascii = ascii })
      | inl more ↦
          let inside : offset + 4 ≤ dp_len = leb→le _ _ more in
          let (type, e0) = get_elem?-lt dp offset (omega arith) in
          let (subtype, e1) = get_elem?-lt dp (offset + 1) (omega arith) in
          let (node_len, e2) = read_le16-some dp (offset + 2) (omega arith) in
          elim (Bool-cases
            (ltb node_len 4 || ltb dp_len (offset + node_len) || is_end_node type subtype)) [
              | inl last ↦
                  rw (more, e0, e1, e2, last)
                    (record { text = out; given = refl; fits = fits; ascii = ascii })
              | inr on ↦
                  let long : 4 ≤ node_len = ground arith in
                  let node : offset + node_len ≤ dp_len = ground arith in
                  elim (Bool-cases (type == 0x04 && subtype == 0x04)) [
                    | inr other ↦
                        rw (more, e0, e1, e2, on, other)
                          (filepath_from-GivesText fuel dp dp_len out_size (offset + node_len) out h
                            (omega arith) (omega arith) fits ascii)
                    | inl path ↦
                        let seg =
                          utf16le_to_ascii-GivesText (drop (offset + 4) dp) (node_len - 4) 256
                            (omega (arith, length-drop (offset + 4) dp)) in
                        let room = out_size - 1 - length out in
                        rw (more, e0, e1, e2, on, path, seg.given)
                          (filepath_from-GivesText fuel dp dp_len out_size (offset + node_len)
                            (out ++ take room seg.text) h (omega arith) (omega arith)
                            (append-fits (out_size - 1) out seg.text fits)
                            (All-append IsAscii out (take room seg.text) ascii
                              (All-take IsAscii room seg.text seg.ascii)))
                  ]
            ]
    ]

-- The path taken from the file path nodes is ASCII and leaves room for the NUL of its buffer.
pub dp_extract_filepath-GivesText :
    (dp : Bytes) (dp_len out_size : ℕ)
    → dp_len ≤ length dp
    → 0 < out_size
    → GivesText (out_size - 1) (dp_extract_filepath dp dp_len out_size)
unfolding dp_extract_filepath
dp_extract_filepath-GivesText dp dp_len out_size h pos = elim (Bool-cases (out_size == 0)) [
  | inl nil ↦ absurd (ground arith)
  | inr room ↦ rw room (
      filepath_from-GivesText (suc dp_len) dp dp_len out_size 0 [] h (omega arith) (omega arith)
        (omega arith) tt)
]
