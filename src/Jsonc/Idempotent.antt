-- ===== src/Jsonc/Idempotent.antt =====
-- Stripping a text that is already free of comments.
use virturust.Text.{Text}
use virturust.Jsonc.Scan.{Mode, code, line, block, skip}

-- The mode in which what a mode lets through is read the second time.
abbrev resume : Mode → Mode
resume line = code
resume block = code
resume (skip m) = resume m
resume m = m
