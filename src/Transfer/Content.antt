-- ===== src/Transfer/Content.antt =====
-- The file at both ends. What `read` gives is a hypothesis, that of a regular file; what the receiver's
-- file holds is what its `lseek` and `write` calls have put there, the latest at each position.
use reliable_packet_transmis.Base.{
  ℕ, zero, suc, ◌+◌, ◌-◌, ◌*◌, ◌/◌, ◌^◌, ◌≤◌, ◌<◌, ◌≡◌, ◌⊎◌, refl, sym, ap, ◌∙◌, inl, inr, Bool,
  true, ◌&&◌, ltb, leb, ◌==◌, if◌then◌else◌, List, [], ◌∷◌, Option, some, none, length, get_elem?,
  take, drop, mul32, arith, tests, subst, All, Elem, Bool-cases, lt→ltb, le→leb, length-take,
  length-drop, get_elem?-take, get_elem?-drop,
}
use mathlib.Core.Bool.{false≢true}
use reliable_packet_transmis.Packet.{data_packet_data_size}
use reliable_packet_transmis.Receiver.{FileWrite}
use reliable_packet_transmis.Receiver.Invariant.{chunk_write}
use reliable_packet_transmis.Sender.{FileSource, last_seq_num_of, last_size_of}
use reliable_packet_transmis.Sender.Window.{IsFile, bytes_below}
use reliable_packet_transmis.Sender.Start.{last_packet_lem}

-- `read` of a regular file that holds `content`, after `lseek`.
abbrev pub ReadsFile : FileSource → List ℕ → Type 0
ReadsFile source content =
    (offset size : ℕ) → source offset size ≡ some (take size (drop offset content))

-- Whether a write covers a position.
abbrev pub covers : FileWrite → ℕ → Bool
covers w pos = leb w.offset pos && ltb pos (w.offset + length w.bytes)

-- The byte that a file holds at a position after some writes, the newest first.
unfoldable pub byte_at : List FileWrite → ℕ → Option ℕ
byte_at [] pos = none
byte_at (w ∷ ws) pos =
    let rest = byte_at ws pos in if covers w pos then get_elem? w.bytes (pos - w.offset) else rest

-- The packets of a transfer of `bytes` bytes.
abbrev pub packets_of : ℕ → ℕ
packets_of bytes = last_seq_num_of bytes + 1

abbrev pub size_of : ℕ → ℕ → ℕ
size_of bytes k = if k + 1 == packets_of bytes then last_size_of bytes else data_packet_data_size

abbrev pub chunk_of : List ℕ → ℕ → ℕ → List ℕ
chunk_of content bytes k = take (size_of bytes k) (drop (data_packet_data_size * k) content)

module _ (content : List ℕ) (bytes : ℕ) (positive : 0 < bytes) (held : bytes ≤ length content)
    (fits : bytes ≤ 2 ^ 32) where
  split :
      (bytes ≡ data_packet_data_size * last_seq_num_of bytes + last_size_of bytes)
      × (0 < last_size_of bytes)
      × (last_size_of bytes ≤ data_packet_data_size)
      × (last_seq_num_of bytes < 2 ^ 32)
  split = last_packet_lem bytes positive (omega arith)

  size_of_bounds :
      (k : ℕ)
      → k < packets_of bytes
      → (0 < size_of bytes k)
        × (size_of bytes k ≤ data_packet_data_size)
        × (data_packet_data_size * k + size_of bytes k ≤ bytes)
  size_of_bounds k h = ground (arith, split)

  pub length-chunk_of :
      (k : ℕ) → k < packets_of bytes → length (chunk_of content bytes k) ≡ size_of bytes k
  length-chunk_of k h = omega (
    arith,
    length-take (size_of bytes k) (drop (data_packet_data_size * k) content),
    length-drop (data_packet_data_size * k) content,
    size_of_bounds k h,
  )

  -- For a regular file that holds at least `bytes` bytes, from 1 to 2 ^ 32, the reads at the
  -- offsets and sizes that the sender computes succeed and give the file's consecutive packets,
  -- none of them empty or too large for a datagram, and there are at most 2 ^ 30 of them.
  pub content-IsFile :
      (source : FileSource)
      → ReadsFile source content
      → IsFile source (packets_of bytes) (last_size_of bytes) (chunk_of content bytes)
  content-IsFile source reads = record {
    not_empty = omega arith;
    small = omega (arith, split);
    reads = λ k h.
        let e : mul32 k data_packet_data_size ≡ data_packet_data_size * k =
          omega (arith, size_of_bounds k h) in
        reads _ _ ∙ ap (λ o. some (take (size_of bytes k) (drop o content))) e;
    chunk_positive = λ k h. omega (arith, length-chunk_of k h, size_of_bounds k h);
    chunk_fits = λ k.
        let small : size_of bytes k ≤ data_packet_data_size = ground (arith, split) in
        omega (arith, length-take (size_of bytes k) (drop (data_packet_data_size * k) content));
  }

  full_packets :
      (n : ℕ)
      → n ≤ last_seq_num_of bytes
      → bytes_below (chunk_of content bytes) n ≡ data_packet_data_size * n
  full_packets zero h = omega arith
  full_packets (suc n) h =
      let full : size_of bytes n ≡ data_packet_data_size = ground arith in
      omega (arith, full, full_packets n (omega arith), length-chunk_of n (omega arith))

  -- The packets add up to the bytes to send.
  pub bytes-packets : bytes ≡ bytes_below (chunk_of content bytes) (packets_of bytes)
  bytes-packets =
      let last = last_seq_num_of bytes in
      let e : packets_of bytes ≡ suc last = omega arith in
      let rest : size_of bytes last ≡ last_size_of bytes = ground arith in
      rw e (
        omega
          (arith, split, rest, full_packets last (omega arith), length-chunk_of last (omega arith)))

  offset_of :
      (k : ℕ) → k < packets_of bytes → mul32 k data_packet_data_size ≡ data_packet_data_size * k
  offset_of k h = omega (arith, size_of_bounds k h)

  -- A write of a packet's bytes puts the file's byte at each position it covers.
  chunk_write-byte :
      (k pos : ℕ)
      → k < packets_of bytes
      → covers (chunk_write (chunk_of content bytes) k) pos ≡ true
      → get_elem? (chunk_of content bytes k) (pos - mul32 k data_packet_data_size)
        ≡ get_elem? (take bytes content) pos
  chunk_write-byte k pos h c =
      let e = offset_of k h in
      let i = pos - data_packet_data_size * k in
      let here : (data_packet_data_size * k ≤ pos)
          × (pos < data_packet_data_size * k + size_of bytes k) =
        ground (arith, e, length-chunk_of k h) in
      let inside : ltb i (size_of bytes k) ≡ true = lt→ltb i (size_of bytes k) (omega arith) in
      let below : ltb pos bytes ≡ true = lt→ltb pos bytes (omega (arith, size_of_bounds k h)) in
      let at : data_packet_data_size * k + i ≡ pos = omega arith in
      rw (
        e,
        get_elem?-take (size_of bytes k) (drop (data_packet_data_size * k) content) i,
        inside,
        get_elem?-drop (data_packet_data_size * k) content i,
        at,
        get_elem?-take bytes content pos,
        below,
      )

  -- A position below the bytes to send is covered by packet `pos / 1450`.
  chunk_write-covers :
      (pos : ℕ)
      → pos < bytes
      → (k : ℕ) × (k < packets_of bytes)
        × (covers (chunk_write (chunk_of content bytes) k) pos ≡ true)
  chunk_write-covers pos h =
      let k = pos / data_packet_data_size in
      let in_range : k < packets_of bytes = omega (arith, split) in
      let size : pos < data_packet_data_size * k + size_of bytes k = ground (arith, split) in
      let e = offset_of k in_range in
      (
        k,
        in_range,
        rw (
          le→leb (mul32 k data_packet_data_size) pos (omega (arith, e)),
          lt→ltb pos (mul32 k data_packet_data_size + length (chunk_of content bytes k))
              (omega (arith, e, length-chunk_of k in_range)),
        ),
      )

  -- After writes that are all packets of the file, a position holds the file's byte, or nothing yet.
  byte_at-honest :
      (ws : List FileWrite) (pos : ℕ)
      → All
          (λ (w : FileWrite).
            (k : ℕ) × (k < packets_of bytes) × (w ≡ chunk_write (chunk_of content bytes) k))
          ws
      → (byte_at ws pos ≡ get_elem? (take bytes content) pos) ⊎ (byte_at ws pos ≡ none)
  unfolding byte_at
  byte_at-honest [] pos h = inr refl
  byte_at-honest (w ∷ ws) pos ((k, in_range, e), h) = elim (Bool-cases (covers w pos)) [
    | inl c ↦
        inl (rw (c, e) (chunk_write-byte k pos in_range (subst (λ w. covers w pos ≡ true) e c)))
    | inr c ↦ rw c (byte_at-honest ws pos h)
  ]

  -- A position that some write covers holds a byte of the file.
  byte_at-covered :
      (ws : List FileWrite) (w : FileWrite) (pos : ℕ)
      → All
          (λ (w : FileWrite).
            (k : ℕ) × (k < packets_of bytes) × (w ≡ chunk_write (chunk_of content bytes) k))
          ws
      → Elem w ws
      → covers w pos ≡ true
      → byte_at ws pos ≡ get_elem? (take bytes content) pos
  unfolding byte_at
  byte_at-covered [] w pos h m c = elim m [ ]
  byte_at-covered (w' ∷ ws) w pos ((k, in_range, e), h) m c = elim (Bool-cases (covers w' pos)) [
    | inl c' ↦ rw (c', e) (chunk_write-byte k pos in_range (subst (λ w. covers w pos ≡ true) e c'))
    | inr c' ↦ elim m [
      | inl here ↦ absurd (false≢true (sym c' ∙ ap (λ w. covers w pos) (sym here) ∙ c))
      | inr m ↦ rw c' (byte_at-covered ws w pos h m c)
    ]
  ]

  -- When every packet has been written, the file holds the bytes to send, and nothing else.
  pub file_content :
      (ws : List FileWrite)
      → All
          (λ (w : FileWrite).
            (k : ℕ) × (k < packets_of bytes) × (w ≡ chunk_write (chunk_of content bytes) k))
          ws
      → ((k : ℕ) → k < packets_of bytes → Elem (chunk_write (chunk_of content bytes) k) ws)
      → (pos : ℕ) → byte_at ws pos ≡ get_elem? (take bytes content) pos
  file_content ws honest every pos = elim (Bool-cases (ltb pos bytes)) [
    | inl h ↦
        let (k, in_range, c) = chunk_write-covers pos (omega tests) in
        byte_at-covered ws (chunk_write (chunk_of content bytes) k) pos honest (every k in_range) c
    | inr h ↦
        let beyond : get_elem? (take bytes content) pos ≡ none =
          rw (get_elem?-take bytes content pos, h) in
        elim (byte_at-honest ws pos honest) [ inl e ↦ e | inr e ↦ e ∙ sym beyond ]
  ]
