-- ===== src/Conn/Burst.antt =====
-- How much the rate limit lets through without a delay.
use girc.Prelude.{ℕ, ◌+◌, ◌-◌, ◌≤◌, ◌≡◌, refl, arith, Bool, true, ◌&&◌, List, [], ◌∷◌, ◌==◌}
use girc.Conn.{Writing, cost, rate}

-- A line of `chars` characters, when the limit was asked about it, and when it was written.
pub record Line : Type 0 where
  pub chars : ℕ
  pub asked : ℕ
  pub written : ℕ

-- The limit once the line is written.
abbrev pub next : Line → Writing → Writing
next line w = record (rate line.chars line.asked w).0 { last_write = line.written }

-- No line is delayed.
unfoldable pub all_pass : List Line → Writing → Bool
all_pass [] w = true
all_pass (line ∷ lines) w = (rate line.chars line.asked w).1 == 0 && all_pass lines (next line w)

-- What the lines cost together.
unfoldable pub spent : List Line → ℕ
spent [] = 0
spent (line ∷ lines) = cost line.chars + spent lines

-- The time that passes between each write and the next question.
unfoldable pub idle : List Line → Writing → ℕ
idle [] w = 0
idle (line ∷ lines) w = line.asked - w.last_write + idle lines (next line w)

cost-pos : (chars : ℕ) → 1 ≤ cost chars
unfolding cost
cost-pos chars = omega arith

-- A line that passes leaves at most eight seconds to owe.
passed :
    (line : Line) (w : Writing)
    → ((rate line.chars line.asked w).1 == 0) ≡ true
    → (next line w).write_delay ≤ 8000000000
unfolding rate
passed line w h = ground (arith, cost-pos line.chars)

owed :
    (line : Line) (w : Writing)
    → (next line w).write_delay ≡ w.write_delay + cost line.chars - (line.asked - w.last_write)
unfolding rate
owed line w = refl

-- Lines that pass without a delay cost together at most eight seconds, less what is still owed,
-- and the time that the connection was idle between them.
pub spent-le :
    (lines : List Line) (w : Writing)
    → w.write_delay ≤ 8000000000
    → all_pass lines w ≡ true
    → w.write_delay + spent lines ≤ 8000000000 + idle lines w
unfolding spent idle all_pass
spent-le [] w h p = omega arith
spent-le (line ∷ lines) w h p =
    let first : ((rate line.chars line.asked w).1 == 0) ≡ true = ground arith in
    let later : all_pass lines (next line w) ≡ true = ground arith in
    omega (arith, spent-le lines (next line w) (passed line w first) later, owed line w)
