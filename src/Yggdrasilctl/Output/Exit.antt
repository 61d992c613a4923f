-- ===== src/Yggdrasilctl/Output/Exit.antt =====
-- The exit code of yggdrasilctl.
use popura.Base.{
  ℕ, Bool, true, false, ◌≡◌, ◌≢◌, refl, ap, ◌∙◌, ◌↔◌, List, [], ◌∷◌, Bool-cases, arith, inl, inr,
  if◌then◌else◌,
}
use popura.Base.Panic.{Exec, value, panic, ◌>>=◌}
use popura.Base.Text.{Bytes, bytes, same, same_iff}
use popura.Yggdrasilctl.{Outside, CmdLineEnv, Request, Response, ask_node}
use popura.Yggdrasilctl.Answers.{Decoders, Formats, Output}
use popura.Yggdrasilctl.Output.{print_reply, show_response, command, run_args, run_body, exit_code}

-- The node was asked, and answered with the status "error".
abbrev pub AnswersError : Outside → CmdLineEnv → Type 0
AnswersError o env =
    (request : Request) × (recv : Response) × (ask_node o env ≡ value (request, recv))
    × (recv.status ≡ bytes "error")

abbrev status_of : Exec (Request × Response) → Bytes
status_of (value (request, recv)) = recv.status
status_of (panic fault) = []

exit_code_unless :
    (versions : List Output) (ver : Bool) (m : Exec (ℕ × List Output))
    → (exit_code (if ver then value (0, versions) else m) ≡ 1) ↔ ((ver ≡ false) × (exit_code m ≡ 1))
exit_code_unless versions true m = (λ e. absurd (omega (arith, e)), λ (h, _). absurd cc)
exit_code_unless versions false m = (λ e. (refl, e), λ (_, e). e)

module _ (d : Decoders) (f : Formats) where
  exit_code_of_shown : (m : Exec (List Output)) → exit_code (m >>= λ output. value (0, output)) ≡ 0
  exit_code_of_shown (value output) = refl
  exit_code_of_shown (panic fault) = refl

  -- An answer that is no error gives 0, however it is printed.
  exit_code_of_quiet :
      (injson : Bool) (json : List Output) (m : Exec (List Output))
      → exit_code (if injson then value (0, json) else (m >>= λ output. value (0, output))) ≡ 0
  exit_code_of_quiet true json m = refl
  exit_code_of_quiet false json m = exit_code_of_shown m

  exit_code-print_reply :
      (injson : Bool) (name : Bytes) (recv : Response)
      → (exit_code (print_reply d f injson name recv) ≡ 1) ↔ (recv.status ≡ bytes "error")
  unfolding print_reply
  exit_code-print_reply injson name recv = elim (Bool-cases (same recv.status (bytes "error"))) [
    | inl h ↦ rw h (λ e. (same_iff recv.status (bytes "error")).0 h, λ e. refl)
    | inr h ↦ rw h (
      λ e. absurd (
          omega (
            arith,
            e,
            exit_code_of_quiet injson _ (show_response d f (command name) recv.response),
          )),
      λ e. absurd (ground (arith, (same_iff recv.status (bytes "error")).1 e)),
    )
  ]

  exit_code_of_asked :
      (injson : Bool) (m : Exec (Request × Response))
      → (exit_code (m >>= λ (request, recv). print_reply d f injson request.name recv) ≡ 1) ↔ (
          (request : Request) × (recv : Response) × (m ≡ value (request, recv))
          × (recv.status ≡ bytes "error"))
  exit_code_of_asked injson (panic fault) =
      (λ e. absurd (omega (arith, e)), λ (r, s, e, h). absurd cc)
  exit_code_of_asked injson (value (request, recv)) = (
    λ e. (request, recv, refl, (exit_code-print_reply injson request.name recv).0 e),
    λ (r, s, e, h). (exit_code-print_reply injson request.name recv).1 (ap status_of e ∙ h),
  )

  exit_code-run_args :
      (o : Outside) (usage : List Output) (env : CmdLineEnv) (as' : List Bytes)
      → (exit_code (run_args o d f usage env as') ≡ 1) ↔ ((as' ≢ []) × AnswersError o env)
  unfolding run_args
  exit_code-run_args o usage env [] = (λ e. absurd (omega (arith, e)), λ (h, _). absurd (h refl))
  exit_code-run_args o usage env (a ∷ as') = (
    λ e. (λ h. cc, (exit_code_of_asked env.injson (ask_node o env)).0 e),
    λ (_, h). (exit_code_of_asked env.injson (ask_node o env)).1 h,
  )

-- `run` returns 1 exactly when it gets as far as an answer of the node, without -version and with an
-- argument at least, and the status of that answer is "error". A panic on the way never gives 1.
pub exit_code_iff :
    (o : Outside) (d : Decoders) (f : Formats) (usage versions : List Output) (env : CmdLineEnv)
    → (exit_code (run_body o d f usage versions env) ≡ 1)
      ↔ ((env.ver ≡ false) × (env.args ≢ []) × AnswersError o env)
unfolding run_body
exit_code_iff o d f usage versions env = (
  λ e.
      let (v, run) = (exit_code_unless versions env.ver _).0 e in
      let (h, a) = (exit_code-run_args d f o usage env env.args).0 run in (v, h, a),
  λ (v, h, a).
      (exit_code_unless versions env.ver _).1
        (v, (exit_code-run_args d f o usage env env.args).1 (h, a)),
)
