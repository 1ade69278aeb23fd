-- ===== src/Cli/Sub.antt =====
-- cli/src/sub.rs: running commands. `Runner` is the trait of that name; the process that it starts is
-- no code of the program, so every verb takes the runner as a parameter. Command output is text here,
-- a return code is the bit pattern of its `i32`, and the trace on standard error is left out.
use zboot.Base.{
  ℕ, ◌≡◌, ◌∙◌, Bool-cases, inl, inr, ap, sym, nat_beq_iff, ok, List, Str, ◌==◌, nat_eq,
  if◌then◌else◌,
}
use zboot.Cli.Io.{Io, exited, continue_cases, ok_injective, ok-ne-err, ◌>>=◌, pure, raise}

pub record RunOutput : Type 0 where
  pub rc : ℕ
  pub stdout : Str
  pub stderr : Str

pub record Runner (S : Type 0) : Type 0 where
  pub run : Str → List Str → Io S RunOutput

module _ {S : Type 0} (r : Runner S) where
  unfoldable pub run : Str → List Str → Io S (Unit {0})
  run prog args = do
    out ← r.run prog args
    if out.rc == 0 then pure tt else raise (exited prog args out.rc)

  unfoldable pub capture : Str → List Str → Io S Str
  capture prog args = do
    out ← r.run prog args
    if out.rc == 0 then pure out.stdout else raise (exited prog args out.rc)

module _ {S : Type 0} (r : Runner S) (prog : Str) (args : List Str) {s t : S} where
  -- A command that succeeds was started and ended with return code 0.
  pub run_done :
      run r prog args s ≡ (ok tt, t)
      → (out : RunOutput) × (r.run prog args s ≡ (ok out, t)) × (out.rc ≡ 0)
  unfolding run
  run_done h = continue_cases (r.run prog args s) _ h λ out u e g. elim (Bool-cases (out.rc == 0)) [
    | inl z ↦
        let end = (ok_injective (rw z at g)).1 in
        (out, e ∙ ap (λ x. (ok out, x)) end, (nat_beq_iff _ _).0 z)
    | inr n ↦ absurd (ok-ne-err (sym (rw n at g)))
  ]

  pub capture_done :
      {text : Str}
      → capture r prog args s ≡ (ok text, t)
      → (out : RunOutput) × (r.run prog args s ≡ (ok out, t)) × (out.rc ≡ 0) × (text ≡ out.stdout)
  unfolding capture
  capture_done {text} h = continue_cases (r.run prog args s) _ h λ out u e g.
      elim (Bool-cases (out.rc == 0)) [
        | inl z ↦
            let both = ok_injective (rw z at g) in
            (out, e ∙ ap (λ x. (ok out, x)) both.1, (nat_beq_iff _ _).0 z, sym both.0)
        | inr n ↦ absurd (ok-ne-err (sym (rw n at g)))
      ]
