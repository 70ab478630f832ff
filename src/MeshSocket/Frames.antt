-- ===== src/MeshSocket/Frames.antt =====
-- The stream that `send_packet` writes, and how far into it a receive buffer stands.
use khawasu_pc.Base.{
  ℕ, zero, suc, ◌^◌, ◌≤◌, ◌<◌, ◌≡◌, refl, ◌∙◌, ap, sym, Bytes, List, [], ◌∷◌, ◌++◌, length, take,
  drop, nat_eq, arith, take-append_self, drop-append_self,
}
use khawasu_pc.MeshSocket.{WordFormat, ClientRecvBuffer, empty_buffer, frame}

-- A packet that the stream can carry: not empty, and its length fits a `uint`.
abbrev pub Fits : Bytes → Type 0
Fits p = (0 < length p) × (length p < 2 ^ 32)

abbrev pub All : (Bytes → Type 0) → List Bytes → Type 0
All P [] = Unit
All P (p ∷ ps) = P p × All P ps

module _ (W : WordFormat) where
  -- What the sender writes for a sequence of packets.
  abbrev pub stream : List Bytes → Bytes
  stream [] = []
  stream (p ∷ ps) = frame W p ++ stream ps

  -- The buffer and the rest of the stream stand for these packets to come: at a packet's start,
  -- or inside one.
  pub data Stands (b : ClientRecvBuffer) (rest : Bytes) : List Bytes → Type 0 where
    at_start :
        {ps : List Bytes} → b ≡ empty_buffer → rest ≡ stream ps → All Fits ps → Stands b rest ps
    inside :
        {p : Bytes} {ps : List Bytes} (more : Bytes)
        → Fits p
        → p ≡ b.bytes ++ more
        → b.size ≡ length p
        → length b.bytes < length p
        → rest ≡ more ++ stream ps
        → All Fits ps
        → Stands b rest (p ∷ ps)

-- Cutting two equal lists at the same length, where the first cut lies inside `more`.
pub take-append_le : (n : ℕ) (xs ys : Bytes) → n ≤ length xs → take n (xs ++ ys) ≡ take n xs
take-append_le zero xs ys h = refl
take-append_le (suc n) [] ys h = absurd (omega arith)
take-append_le (suc n) (x ∷ xs) ys h = ap (◌∷◌ x) (take-append_le n xs ys (omega arith))

pub drop-append_le : (n : ℕ) (xs ys : Bytes) → n ≤ length xs → drop n (xs ++ ys) ≡ drop n xs ++ ys
drop-append_le zero xs ys h = refl
drop-append_le (suc n) [] ys h = absurd (omega arith)
drop-append_le (suc n) (x ∷ xs) ys h = drop-append_le n xs ys (omega arith)

pub take-length : (xs : Bytes) → take (length xs) xs ≡ xs
take-length [] = refl
take-length (x ∷ xs) = ap (◌∷◌ x) (take-length xs)

pub drop-length : (xs : Bytes) → drop (length xs) xs ≡ []
drop-length [] = refl
drop-length (x ∷ xs) = drop-length xs

-- Two ways to cut one stream: the shorter first part is a part of the longer one.
pub split_le :
    (xs ys zs ws : Bytes)
    → xs ++ ys ≡ zs ++ ws
    → length zs ≤ length xs
    → (take (length zs) xs ≡ zs) × (drop (length zs) xs ++ ys ≡ ws)
split_le xs ys zs ws e h = (
  sym (take-append_le (length zs) xs ys h) ∙ ap (take (length zs)) e ∙ take-append_self zs ws,
  sym (drop-append_le (length zs) xs ys h) ∙ ap (drop (length zs)) e ∙ drop-append_self zs ws,
)
