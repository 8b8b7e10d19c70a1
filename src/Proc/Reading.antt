-- ===== src/Proc/Reading.antt =====
-- `LocalProcess._nonblock_read` of core/proc/process_manager.py over what a stream delivers.
use gpt_pilot.Prelude.{
  ℕ, suc, ◌<◌, ◌≡◌, zero, refl, List, [], ◌∷◌, ◌++◌, length, select, ltb, none, some, arith, ap,
}
use mathlib.Core.List.{append_assoc, append-nil}
use gpt_pilot.Proc.{
  System, Stream, one_byte, end_of_stream, read_timed_out, nonblock_read, decode_byte,
}

-- The bytes that come in time one after the other, up to the end of the stream or of the patience.
pub data Delivers (os : System) (pid : ℕ) (stream : Stream) (timeout : ℕ)
    : os.World → List ℕ → os.World → Type 0 where
  ends :
      {w w' : os.World}
      → os.read_one pid stream timeout w ≡ (end_of_stream, w')
      → Delivers os pid stream timeout w [] w'
  pauses :
      {w w' : os.World}
      → os.read_one pid stream timeout w ≡ (read_timed_out, w')
      → Delivers os pid stream timeout w [] w'
  brings :
      {b : ℕ} {bs : List ℕ} {w w' w'' : os.World}
      → os.read_one pid stream timeout w ≡ (one_byte b, w')
      → Delivers os pid stream timeout w' bs w''
      → Delivers os pid stream timeout w (b ∷ bs) w''

append_decoded :
    (b : ℕ) (buffer bs : List ℕ)
    → (buffer ++ decode_byte b) ++ select (λ c. ltb c 128) bs
      ≡ buffer ++ select (λ c. ltb c 128) (b ∷ bs)
unfolding select
append_decoded b buffer bs =
    ground (arith, append_assoc buffer (b ∷ []) (select (λ c. ltb c 128) bs), append-nil buffer)

module _ (os : System) (pid : ℕ) (stream : Stream) (timeout : ℕ) where
  -- A read of what a stream delivers ends with one unit of fuel more than there are bytes. It adds the
  -- bytes below 128 to the buffer and drops all others, so a character that takes several bytes is
  -- lost.
  pub nonblock_read-Delivers :
      (fuel : ℕ) (buffer : List ℕ) {w w' : os.World} {bs : List ℕ}
      → Delivers os pid stream timeout w bs w'
      → length bs < fuel
      → nonblock_read os fuel pid stream timeout buffer w
        ≡ some (buffer ++ select (λ b. ltb b 128) bs, w')
  unfolding nonblock_read select
  nonblock_read-Delivers zero buffer d enough = absurd (omega arith)
  nonblock_read-Delivers (suc fuel) buffer (Delivers.ends e) enough =
      rw (nonblock_read, ap (λ r. r.0) e, ap (λ r. r.1) e, select, append-nil buffer)
  nonblock_read-Delivers (suc fuel) buffer (Delivers.pauses e) enough =
      rw (nonblock_read, ap (λ r. r.0) e, ap (λ r. r.1) e, select, append-nil buffer)
  nonblock_read-Delivers (suc fuel) buffer (Delivers.brings {b} {bs} e more) enough = rw (
    nonblock_read,
    ap (λ r. r.0) e,
    ap (λ r. r.1) e,
    nonblock_read-Delivers fuel (buffer ++ decode_byte b) more (omega arith),
    append_decoded b buffer bs,
  )

  -- While a byte always comes in time, the read does not end, with any fuel.
  pub nonblock_read-flood :
      (byte : os.World → ℕ)
      → ((w : os.World) → (os.read_one pid stream timeout w).0 ≡ one_byte (byte w))
      → (fuel : ℕ) (buffer : List ℕ) (w : os.World)
      → nonblock_read os fuel pid stream timeout buffer w ≡ none
  unfolding nonblock_read select
  nonblock_read-flood byte floods zero buffer w = refl
  nonblock_read-flood byte floods (suc fuel) buffer w =
      let (_, w') = os.read_one pid stream timeout w in
      ground
        (arith, floods w, nonblock_read-flood byte floods fuel (buffer ++ decode_byte (byte w)) w')
