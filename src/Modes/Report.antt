-- ===== src/Modes/Report.antt =====
-- goserver/main.go: writeBenchmarkReport, with what it did to the file system.
use sentinel_protocol.Base.{
  Bool, not, ◌&&◌, Option, none, some, List, [], ◌∷◌, if◌then◌else◌, decided, Fallible, ok, err,
}
use sentinel_protocol.Text.{Text, Text-discrete, text, is_empty}
use sentinel_protocol.Benchmark.{BenchmarkReport}
use sentinel_protocol.Modes.Files.{Files}

-- An attempt to make a directory, or to write a file.
pub data FileOp : Type 0 where
  makes_dir : Text → FileOp
  writes : Text → Text → FileOp

-- The error, if there is one, and the attempts in order.
abbrev pub Written : Type 0
Written = Option Text × List FileOp

abbrev pub write_encoded : Files → Text → Fallible Text → Written
write_encoded fs path (err e) = (some e, [])
write_encoded fs path (ok bytes) = (fs.write_file path bytes, writes path bytes ∷ [])

abbrev pub after_dir : Text → Option Text → Written → Written
after_dir dir (some e) rest = (some e, makes_dir dir ∷ [])
after_dir dir none (failure, ops) = (failure, makes_dir dir ∷ ops)

abbrev pub needs_dir : Text → Bool
needs_dir dir = not (is_empty dir) && not (decided (Text-discrete dir (text ".")))

unfoldable pub write_benchmark_report : Files → Text → Option BenchmarkReport → Written
write_benchmark_report fs path none = (some (text "benchmark report is nil"), [])
write_benchmark_report fs path (some report) =
    let rest = write_encoded fs path (fs.encode_report report) in
    let dir = fs.dir path in if needs_dir dir then after_dir dir (fs.mkdir_all dir) rest else rest
