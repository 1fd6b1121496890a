-- ===== src/Cell/Wire/RoundTrip.antt =====
-- What `mintCell` of tools/x402-bridge/cell-codec.ts puts into a cell is what `parseCell` of
-- tools/templog-bridge/codec.ts reads from it.
use semantos_edge.Base.{
  ℕ, ◌+◌, ◌^◌, ◌/◌, All, All-append, ◌<◌, ◌≤◌, ◌≡◌, refl, sym, ap, ◌∙◌, true, List, [], ◌∷◌, length,
  take, drop, replicate, length-replicate, ok, some, arith, ◌==◌, ==_iff,
}
use semantos_edge.Base.Map.{Str}
use semantos_edge.Base.Bytes.{slice}
use semantos_edge.Base.Writes.{
  Writes, is_clear, fill, length-fill, slice-fill_field, take-take, AllWritten, All-fill,
  All-replicate,
}
use semantos_edge.Cell.Words.{read_u32, le32, le64}
use semantos_edge.Cell.Wire.{
  ParsedCell, mint_cell, parse_cell, has_magic, magic, kind_of, same_bytes,
}
use semantos_edge.Cell.Wire.Minted.{
  IsMintable, padded, cell_writes, mint_cell_lem, cell_writes-Fits, slice-payload, read_u32-slice,
  read_u64-slice,
}
use semantos_edge.Templog.Text.{IsByte}
use semantos_edge.Templog.Mac.{mac_to_string}

pub same_bytes_self : (xs : List ℕ) → same_bytes xs xs ≡ true
unfolding same_bytes
same_bytes_self [] = refl
same_bytes_self (x ∷ xs) = ground (arith, same_bytes_self xs)

pub same_bytes_eq : (xs ys : List ℕ) → same_bytes xs ys ≡ true → xs ≡ ys
unfolding same_bytes
same_bytes_eq [] [] h = refl
same_bytes_eq [] (y ∷ ys) h = absurd (cc h)
same_bytes_eq (x ∷ xs) [] h = absurd (cc h)
same_bytes_eq (x ∷ xs) (y ∷ ys) h =
    let e : x ≡ y = ground arith in
    let es : xs ≡ ys = same_bytes_eq xs ys (ground arith) in λ i. e i ∷ es i

module _ (sha256 : List ℕ → List ℕ) (type payload owner_id : List ℕ) (timestamp_ms domain_flag : ℕ)
    (long : length (sha256 (padded payload)) ≡ 32)
    (v : IsMintable type payload owner_id timestamp_ms domain_flag) where
  abbrev pub writes : Writes
  writes = cell_writes sha256 type payload owner_id timestamp_ms domain_flag

  abbrev pub minted : List ℕ
  minted = fill writes (replicate 1024 0)

  field :
      (k o n : ℕ) (src : List ℕ)
      → drop k writes ≡ (o, n, src) ∷ drop (k + 1) writes
      → length src ≡ n
      → is_clear o n (drop (k + 1) writes) ≡ true
      → o + n ≤ 1024
      → slice o n minted ≡ src
  field k o n src e h c l =
      let z = length-replicate {A = ℕ} 1024 0 in
      slice-fill_field k o n src writes (replicate 1024 0) e h
        (cell_writes-Fits sha256 _ _ _ _ _ long v) c (omega arith)

  word :
      (k o w : ℕ)
      → w < 2 ^ 32
      → drop k writes ≡ (o, 4, le32 w) ∷ drop (k + 1) writes
      → is_clear o 4 (drop (k + 1) writes) ≡ true
      → o + 4 ≤ 1024
      → read_u32 minted o ≡ w
  word k o w h e c l = read_u32-slice minted o w h (field k o 4 (le32 w) e refl c l)

  has_magic-minted : has_magic 0 magic minted ≡ true
  unfolding has_magic
  has_magic-minted =
      let w0 = word 0 0 0xdead_beef (omega arith) refl refl (omega arith) in
      let w1 = word 1 4 0xcafe_babe (omega arith) refl refl (omega arith) in
      let w2 = word 2 8 0x1337_1337 (omega arith) refl refl (omega arith) in
      let w3 = word 3 12 0x4242_4242 (omega arith) refl refl (omega arith) in
      rw (w0, w1, w2, w3) refl

  -- What the cell says.
  abbrev pub parsed_of : Str → ParsedCell
  parsed_of mac = record {
    kind = kind_of sha256 type;
    type_hash = type;
    owner_mac = mac;
    version = 2;
    linearity = 2;
    domain_flags = domain_flag;
    timestamp_ms = timestamp_ms;
    payload_total = length payload;
    payload = padded payload;
    payload_root = sha256 (padded payload);
    payload_root_ok = true;
  }

  pub parse-minted :
      (mac : Str)
      → mac_to_string (take 6 owner_id) ≡ ok mac
      → parse_cell sha256 minted ≡ some (parsed_of mac)
  unfolding parse_cell
  parse-minted mac m =
      let size : length minted ≡ 1024 = length-fill writes (replicate 1024 0) in
      let whole : (length minted == 1024) ≡ true = (==_iff _ _).1 size in
      let pay = v.payload_fits in
      let small : length payload < 2 ^ 32 = omega arith in
      let ty : slice 30 32 minted ≡ type = field 7 30 32 type refl v.type_fits refl (omega arith) in
      let ow = field 8 62 16 owner_id refl v.owner_fits refl (omega arith) in
      let six = sym (take-take 6 16 (drop 62 minted) (omega arith)) ∙ ap (take 6) ow in
      let ts =
        read_u64-slice minted 78 timestamp_ms v.timestamp_fits
          (field 9 78 8 (le64 timestamp_ms) refl refl refl (omega arith)) in
      let root = field 12 224 32 (sha256 (padded payload)) refl long refl (omega arith) in
      let area = slice-payload sha256 _ _ _ _ _ long v in
      let w2 = word 4 16 2 (omega arith) refl refl (omega arith) in
      let wd = word 5 24 domain_flag v.domain_fits refl refl (omega arith) in
      let wv = word 6 20 2 (omega arith) refl refl (omega arith) in
      let wl = word 11 90 (length payload) small refl refl (omega arith) in
      let same : same_bytes (sha256 (slice 256 768 minted)) (slice 224 32 minted) ≡ true =
        rw (area, root) (same_bytes_self (sha256 (padded payload))) in
      rw (whole, has_magic-minted)
        (rw six (
          rw m (λ i. some (record {
            kind = kind_of sha256 (ty i);
            type_hash = ty i;
            owner_mac = mac;
            version = wv i;
            linearity = w2 i;
            domain_flags = wd i;
            timestamp_ms = ts i;
            payload_total = wl i;
            payload = area i;
            payload_root = root i;
            payload_root_ok = same i;
          }))))

  le32-All : (w : ℕ) → All IsByte (le32 w)
  le32-All w = (omega arith, (omega arith, (omega arith, (omega arith, tt))))

  pub IsByte-minted :
      All IsByte type
      → All IsByte payload
      → All IsByte owner_id
      → All IsByte (sha256 (padded payload))
      → All IsByte minted
  IsByte-minted t p o r =
      let zeros = All-replicate IsByte 1024 0 (omega arith) in
      let ts =
        All-append IsByte (le32 timestamp_ms) (le32 (timestamp_ms / 2 ^ 32)) (le32-All timestamp_ms)
          (le32-All (timestamp_ms / 2 ^ 32)) in
      let area : AllWritten IsByte (drop 10 writes) = (p, (le32-All (length payload), (r, tt))) in
      let front : AllWritten IsByte (drop 4 writes) =
        (le32-All 2, (le32-All domain_flag, (le32-All 2, (t, (o, (ts, area)))))) in
      All-fill IsByte writes (replicate 1024 0)
        (
          le32-All 0xdead_beef,
          (le32-All 0xcafe_babe, (le32-All 0x1337_1337, (le32-All 0x4242_4242, front))),
        )
        zeros

  pub length-minted : length minted ≡ 1024
  length-minted = length-fill writes (replicate 1024 0)

  -- Where the hash of the padded payload has 32 bytes, the type is of 32 bytes, the payload of at most
  -- 768, the owner id of 16, the timestamp is below 2 ^ 64 and the domain below 2 ^ 32, and the first
  -- six bytes of the owner id are a MAC address, `mintCell` gives a cell of 1024 bytes, from which
  -- `parseCell` reads that type and its kind, that MAC, domain, timestamp and payload (padded with
  -- zeros, and its length), version 2 and linearity 2, and a payload root that checks.
  pub parse_cell-mint_cell :
      (mac : Str)
      → mac_to_string (take 6 owner_id) ≡ ok mac
      → (cell : List ℕ) × (mint_cell sha256 type payload owner_id timestamp_ms domain_flag
          ≡ ok cell)
        × (length cell ≡ 1024)
        × (parse_cell sha256 cell ≡ some (parsed_of mac))
  parse_cell-mint_cell mac m =
      (minted, mint_cell_lem sha256 _ _ _ _ _ long v, length-minted, parse-minted mac m)
