-- ===== src/DataProxy/Ranges/Bounds.antt =====
-- Which bytes a request for a range reads.
use aos_server.Base.{ℕ, suc, ◌+◌, ◌-◌, ◌*◌, ◌/◌, ◌≤◌, ◌<◌, ◌≡◌, some, [], ◌∷◌}
use aos_server.DataProxy.Ranges.{Range, Ranges}

-- What is read of an encrypted object.
abbrev pub IsCovered : Range → Ranges → Type 0
IsCovered r ranges =
    (s : ℕ) × (e : ℕ) × (skip : ℕ) × (ranges.query ≡ some (s * 65564, e * 65564))
    × (ranges.edit_list ≡ some (skip ∷ (r.end - r.start) ∷ []))
    × (s * 65536 + skip ≡ r.start)
    × ((p : ℕ) → r.start ≤ p → p < r.end → (s ≤ p / 65536) × (p / 65536 < e))

-- The bytes that a storage sends for `bytes=a-b`, where both ends count.
abbrev pub bytes_sent : ℕ × ℕ → ℕ
bytes_sent (a, b) = suc b - a
