-- ===== src/Exec/Tests.antt =====
-- The theorem about the arguments of kernel/exec.c, with pages at concrete addresses.
use gcgos.Base.{◌+◌, refl, [], ◌∷◌, arith}
use gcgos.Exec.Stack.{push_args}
use gcgos.Exec.Laws.{Pages}
use gcgos.Exec.Strings.{Strings, push_args-Strings}

sample-Pages : Pages 134737920 8192
sample-Pages = record {
  sp_aligned = refl;
  sz_aligned = refl;
  sp_fits = omega arith;
  sz_fits = omega arith;
}

push_args-Strings_example :
    Strings 134737920 8192
      ((b'l' ∷ b's' ∷ []) ∷ (b'/' ∷ []) ∷ [])
      (push_args
        ((b'l' ∷ b's' ∷ []) ∷ (b'/' ∷ []) ∷ [])
        (record { word = λ _. 0; dsp = 134737920 + 4096; align_sz = 8192 + 4096; ustack = [] }))
      24
push_args-Strings_example =
    push_args-Strings 134737920 8192 sample-Pages ((b'l' ∷ b's' ∷ []) ∷ (b'/' ∷ []) ∷ []) (λ _. 0)
      24 (omega arith, (omega arith, tt))
      ((omega arith, (omega arith, tt)), ((omega arith, tt), tt)) (omega arith)
