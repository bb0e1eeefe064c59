-- ===== src/Klog/Tests.antt =====
-- Runs of the log, and the theorems applied to a log with one message.
use ap_pa.Base.{ℕ, ◌≡◌, refl, List, [], ◌∷◌, ◌++◌, arith, none, some}
use ap_pa.Klog.{
  Klog, Level, Arg, klog, klog_init, klog_clear, klog_get_entry, klog_get_stats, format_loop,
}
use ap_pa.Klog.Ring.{IsLog, entry_of, klog_init-IsLog, klog_get_entry-recent}
use ap_pa.Klog.Plain.{klog-IsLog}

-- `hi`
abbrev hi : List ℕ
hi = 104 ∷ 105 ∷ []

klog-IsLog_example :
    (s' : Klog) × (klog klog_init Level.info (hi ++ 0 ∷ []) [] ≡ some s')
    × IsLog s' (entry_of klog_init Level.info hi ∷ [])
klog-IsLog_example =
    klog-IsLog klog_init Level.info hi [] [] [] klog_init-IsLog
      (omega arith, omega arith, (omega arith, omega arith, tt)) (omega arith) (omega arith)

klog_get_entry-recent_example : klog_get_entry klog_init 3 ≡ none
klog_get_entry-recent_example = klog_get_entry-recent klog_init [] 3 klog_init-IsLog

-- `%d %x %s%c%q`
abbrev mixed : List ℕ
mixed = 37 ∷ 100 ∷ 32 ∷ 37 ∷ 120 ∷ 32 ∷ 37 ∷ 115 ∷ 37 ∷ 99 ∷ 37 ∷ 113 ∷ 0 ∷ []

-- `-10 ff hi!%q`
formats :
    format_loop mixed
      (Arg.number 4294967286
        ∷ Arg.number 255
        ∷ Arg.string (some (104 ∷ 105 ∷ 0 ∷ []))
        ∷ Arg.number 33
        ∷ [])
      []
    ≡ some (45 ∷ 49 ∷ 48 ∷ 32 ∷ 102 ∷ 102 ∷ 32 ∷ 104 ∷ 105 ∷ 33 ∷ 37 ∷ 113 ∷ [])
unfolding format_loop
formats = refl

cleared : klog_get_stats (klog_clear klog_init) ≡ (0, 0)
unfolding klog_get_stats klog_clear
cleared = refl
