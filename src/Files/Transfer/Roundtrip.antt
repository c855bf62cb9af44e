-- ===== src/Files/Transfer/Roundtrip.antt =====
-- A file that is sent chunk by chunk arrives whole, also where it is resumed.
use mathlib.Core.List.{append-nil}
use remote_x.Prelude.{
  ℕ, zero, suc, ◌+◌, ◌≡◌, ◌≤◌, ◌<◌, refl, ap, sym, ◌∙◌, true, false, List, [], ◌∷◌, ◌++◌, Option,
  none, some, arith, ltb, nat_beq, length, take, drop, length-take, length-drop, take-add, take-all,
  drop-all, Bool-cases, inl, inr, min,
}
use remote_x.Prelude.Eq.{◌==◌}
use remote_x.Prelude.Result.{ok}
use remote_x.Map.{lookup, insert, remove}
use remote_x.Map.Laws.{lookup-insert}
use remote_x.Common.Text.{Text, text_beq_iff, text_eq}
use remote_x.Files.Transfer.{
  chunk, Disk, IncomingFile, content, write_at, write_chunk, finish, OutgoingFile, next_chunk,
}

-- The sender's chunks, each handed to the receiver, until there is none: `none` if the fuel ran out
-- or a chunk was refused. `short` bounds what the system's reads return.
unfoldable pub pump :
    (ℕ → ℕ) → ℕ → OutgoingFile → IncomingFile → Disk → Option (IncomingFile × Disk)
pump short zero o f disk = none
pump short (suc fuel) o f disk =
    let (c, o') = next_chunk (short o.offset) o in
    elim c [
      | none ↦ some (f, disk)
      | some (offset, bytes) ↦
          let (e, f', disk') = write_chunk offset bytes f disk in
          elim e [ some why ↦ none | none ↦ pump short fuel o' f' disk' ]
    ]

-- Both ends stand at the same place of the file, and what has arrived is its beginning.
pub record Agree (o : OutgoingFile) (f : IncomingFile) (disk : Disk) : Type 0 where
  pub at : f.received ≡ o.offset
  pub size : f.expected ≡ length o.bytes
  pub inside : o.offset ≤ length o.bytes
  pub have : content (lookup f.part disk) ≡ take o.offset o.bytes

-- What the next read returns.
abbrev got : ℕ → OutgoingFile → List ℕ
got short o = take (min chunk (suc short)) (drop o.offset o.bytes)

write_at-take :
    (bytes : List ℕ) (offset n : ℕ)
    → offset ≤ length bytes
    → write_at offset (take n (drop offset bytes)) (take offset bytes) ≡ take (offset + n) bytes
unfolding write_at
write_at-take bytes offset n l =
    let a : take offset (take offset bytes) ≡ take offset bytes =
      take-all offset (take offset bytes) (omega (arith, length-take offset bytes)) in
    let got = take n (drop offset bytes) in
    let b : drop (offset + length got) (take offset bytes) ≡ [] =
      drop-all (offset + length got) (take offset bytes)
        (omega (arith, length-take offset bytes)) in
    ap (λ xs. xs ++ (got ++ drop (offset + length got) (take offset bytes))) a
    ∙ ap (λ xs. take offset bytes ++ (got ++ xs)) b
    ∙ ap (λ xs. take offset bytes ++ xs) (append-nil got)
    ∙ take-add offset n bytes

-- The first `n` bytes or all there are.
take-length : (n : ℕ) (xs : List ℕ) → take (length (take n xs)) xs ≡ take n xs
take-length zero xs = refl
take-length (suc n) [] = refl
take-length (suc n) (x ∷ xs) = ap (λ zs. x ∷ zs) (take-length n xs)

write_chunk-accepts :
    (offset : ℕ) (bytes : List ℕ) (f : IncomingFile) (disk : Disk)
    → f.received ≡ offset
    → offset + length bytes ≤ f.expected
    → write_chunk offset bytes f disk ≡ (
      none,
      record f { received = f.received + length bytes },
      insert f.part (write_at offset bytes (content (lookup f.part disk))) disk,
    )
unfolding write_chunk
write_chunk-accepts offset bytes f disk e l =
    let a : nat_beq offset f.received ≡ true = ground arith in
    let b : ltb f.expected (f.received + length bytes) ≡ false = ground arith in rw (a, b) refl

lookup-new : (p : Text) (bytes : List ℕ) (disk : Disk) → lookup p (insert p bytes disk) ≡ some bytes
lookup-new p bytes disk = ground (arith, lookup-insert p p bytes disk, text_beq_iff p p)

content-insert :
    (p : Text) (bytes : List ℕ) (disk : Disk) → content (lookup p (insert p bytes disk)) ≡ bytes
content-insert p bytes disk = ground (arith, lookup-insert p p bytes disk, text_beq_iff p p)

-- One chunk moves both ends on by as much as was read.
Agree-next :
    (n : ℕ) (o : OutgoingFile) (f : IncomingFile) (disk : Disk)
    → Agree o f disk
    → Agree
        (record o { offset = o.offset + length (take n (drop o.offset o.bytes)) })
        (record f { received = f.received + length (take n (drop o.offset o.bytes)) })
        (insert f.part
          (write_at o.offset (take n (drop o.offset o.bytes)) (content (lookup f.part disk)))
          disk)
Agree-next n o f disk h =
    let got = take n (drop o.offset o.bytes) in
    record {
      at = ap (λ r. r + length got) h.at;
      size = h.size;
      inside =
          omega
            (arith, length-take n (drop o.offset o.bytes), length-drop o.offset o.bytes, h.inside);
      have =
          content-insert f.part (write_at o.offset got (content (lookup f.part disk))) disk
          ∙ ap (λ old. write_at o.offset got old) h.have
          ∙ ap (λ new. write_at o.offset new (take o.offset o.bytes))
              (sym (take-length n (drop o.offset o.bytes)))
          ∙ write_at-take o.bytes o.offset (length got) h.inside;
    }

pump-step :
    (short : ℕ → ℕ) (fuel : ℕ) (o o' : OutgoingFile) (f f' : IncomingFile) (disk disk' : Disk)
    (offset : ℕ) (bytes : List ℕ)
    → next_chunk (short o.offset) o ≡ (some (offset, bytes), o')
    → write_chunk offset bytes f disk ≡ (none, f', disk')
    → pump short (suc fuel) o f disk ≡ pump short fuel o' f' disk'
unfolding pump
pump-step short fuel o o' f f' disk disk' offset bytes e a =
    ground
      (arith, ap (λ r. r.0) e, ap (λ r. r.1) e, ap (λ r. r.0) a, ap (λ r. r.1) a, ap (λ r. r.2) a)

next_chunk-some :
    (short : ℕ) (o : OutgoingFile)
    → nat_beq (length (take (min chunk (suc short)) (drop o.offset o.bytes))) 0 ≡ false
    → next_chunk short o ≡ (
      some (o.offset, take (min chunk (suc short)) (drop o.offset o.bytes)),
      record o {
        offset = o.offset + length (take (min chunk (suc short)) (drop o.offset o.bytes));
      },
    )
unfolding next_chunk
next_chunk-some short o q = rw q refl

pump_complete :
    (short : ℕ → ℕ) (fuel : ℕ) (o : OutgoingFile) (f : IncomingFile) (disk : Disk)
    → Agree o f disk
    → length o.bytes < o.offset + fuel
    → (f' : IncomingFile) × (disk' : Disk) × (pump short fuel o f disk ≡ some (f', disk'))
      × (f'.received ≡ f'.expected)
      × (content (lookup f'.part disk') ≡ o.bytes)
      × (f'.target ≡ f.target)
unfolding pump next_chunk
pump_complete short zero o f disk h l = absurd (omega (arith, h.inside))
pump_complete short (suc fuel) o f disk h l =
    let n = min chunk (suc (short o.offset)) in
    let got = take n (drop o.offset o.bytes) in
    let m = length-take n (drop o.offset o.bytes) in
    let d = length-drop o.offset o.bytes in
    elim (Bool-cases (nat_beq (length got) 0)) [
      | inl q ↦
          let z : length got ≡ 0 = ground arith in
          let x : o.offset ≡ length o.bytes = omega (arith, z, m, d, h.inside) in
          (
            f,
            disk,
            rw (pump, q) refl,
            h.at ∙ x ∙ sym h.size,
            h.have ∙ take-all o.offset o.bytes (omega (arith, x)),
            refl,
          )
      | inr q ↦
          let z : 0 < length got = ground arith in
          let a =
            write_chunk-accepts o.offset got f disk h.at (omega (arith, m, d, h.inside, h.size)) in
          let (f', disk', p, r, c, t) =
            pump_complete short fuel (record o { offset = o.offset + length got })
              (record f { received = f.received + length got })
              (insert f.part (write_at o.offset got (content (lookup f.part disk))) disk)
              (Agree-next n o f disk h) (omega (arith, z)) in
          (
            f',
            disk',
            pump-step short fuel o _ f _ disk _ o.offset got (next_chunk-some (short o.offset) o q)
                  a
                ∙ p,
            r,
            c,
            t,
          )
    ]

module _ (sha256 : List ℕ → List ℕ) where
  -- If the receiver has the first bytes of the file that is sent, up to the sender's place in it,
  -- and is to receive its whole length, then however little each read returns, the chunks are all
  -- accepted, the transfer finishes with the hash of the file, and the target then holds the file.
  -- One round for each byte that is left, and one more, is enough.
  pub finish-pump :
      (short : ℕ → ℕ) (fuel : ℕ) (o : OutgoingFile) (f : IncomingFile) (disk : Disk)
      → Agree o f disk
      → length o.bytes < o.offset + fuel
      → (f' : IncomingFile) × (disk' : Disk) × (pump short fuel o f disk ≡ some (f', disk'))
        × ((finish sha256 (sha256 o.bytes) f' disk').0 ≡ ok f.target)
        × (lookup f.target (finish sha256 (sha256 o.bytes) f' disk').1 ≡ some o.bytes)
  unfolding finish
  finish-pump short fuel o f disk h l =
      let (f', disk', p, r, c, t) = pump_complete short fuel o f disk h l in
      let b : nat_beq f'.received f'.expected ≡ true = ground (arith, r) in
      let s : (sha256 o.bytes == sha256 o.bytes) ≡ true =
        (text_beq_iff (sha256 o.bytes) (sha256 o.bytes)).1 refl in
      (
        f',
        disk',
        p,
        rw (b, c, s) (ap (λ x. ok x) t),
        rw (b, c, s, sym t) (lookup-new f'.target o.bytes (remove f'.part disk')),
      )
