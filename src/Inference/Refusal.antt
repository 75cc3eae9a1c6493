-- ===== src/Inference/Refusal.antt =====
-- src/inference.c: with which reasons a prompt is refused.
use professor_ai.Prelude.{
  ◌≡◌, refl, sym, inl, inr, Bool, true, false, not, ◌||◌, List, if◌then◌else◌, Option-cases,
}
use mathlib.Core.Path.{subst}
use professor_ai.Prelude.Int.{ℤ, pos, ltb_ℤ}
use professor_ai.Prelude.Bytes.{Bytes}
use professor_ai.Api.{ChatMessage}
use professor_ai.Inference.Generate.{context_overflow, backend_error}
use professor_ai.Inference.CompleteLaws.{IsFailure}
use professor_ai.Inference.Chat.{
  Template, Rendered, prompt, refused, render_prompt, render_chatml, render_template, is_zero,
  render_fallback, check_render, build_chatml_prompt,
}
use professor_ai.Inference.Run.{Rendering, rendered}

-- A prompt that is refused is refused with one of the two reasons.
abbrev pub IsProper : Rendered → Type 0
IsProper (refused why) = IsFailure why
IsProper (prompt text) = Unit {0}

choose-IsProper :
    (test : Bool) (x y : Rendered) → IsProper x → IsProper y → IsProper (if test then x else y)
choose-IsProper true x y hx hy = hx
choose-IsProper false x y hx hy = hy

render_chatml-IsProper :
    (malloc : Bool) (ms : List ChatMessage) → IsProper (render_chatml malloc ms)
unfolding render_chatml
render_chatml-IsProper malloc ms = elim (Option-cases (build_chatml_prompt malloc ms)) [
  | inl e ↦
      let same : render_chatml malloc ms ≡ refused backend_error = rw (e, render_chatml) refl in
      subst IsProper (sym same) (inr refl)
  | inr ((text, len), e) ↦
      let last = if ltb_ℤ (pos 262144) len then refused context_overflow else prompt text in
      let same : render_chatml malloc ms ≡ (if is_zero len then refused backend_error else last) =
        rw (e, render_chatml) refl in
      subst IsProper (sym same) (
        choose-IsProper (is_zero len) (refused backend_error) last (inr refl) (
          choose-IsProper (ltb_ℤ (pos 262144) len) (refused context_overflow) (prompt text)
            (inl refl) tt))
]

render_fallback-IsProper :
    (malloc : Bool) (ms : List ChatMessage) → IsProper (render_fallback malloc ms)
unfolding render_fallback
render_fallback-IsProper malloc ms = elim (Option-cases (build_chatml_prompt malloc ms)) [
  | inl e ↦
      let same : render_fallback malloc ms ≡ refused backend_error = rw (e, render_fallback) refl in
      subst IsProper (sym same) (inr refl)
  | inr ((text, len), e) ↦
      let same : render_fallback malloc ms
          ≡ (if is_zero len then refused backend_error else prompt text) =
        rw (e, render_fallback) refl in
      subst IsProper (sym same)
        (choose-IsProper (is_zero len) (refused backend_error) (prompt text) (inr refl) tt)
]

check_render-IsProper :
    (needed actual : ℤ) (text : Bytes) → IsProper (check_render needed (actual, text))
unfolding check_render
check_render-IsProper needed actual text =
    choose-IsProper (not (ltb_ℤ (pos 0) actual) || ltb_ℤ needed actual) (refused backend_error) _
      (inr refl) tt

render_template-IsProper :
    (malloc_messages malloc_text : Bool) (t : Template) (ms : List ChatMessage)
    → IsProper (render_template malloc_messages malloc_text t ms)
unfolding render_template
render_template-IsProper malloc_messages malloc_text t ms =
    choose-IsProper (not malloc_messages) (refused backend_error) _ (inr refl) (
      choose-IsProper (not (ltb_ℤ (pos 0) (t.size ms))) (render_fallback malloc_text ms) _
        (render_fallback-IsProper malloc_text ms)
        (choose-IsProper (ltb_ℤ (pos 262144) (t.size ms)) (refused context_overflow) _ (inl refl) (
          choose-IsProper (not malloc_text) (refused backend_error) _ (inr refl)
            (check_render-IsProper (t.size ms) (t.render ms).0 (t.render ms).1))))

pub rendered-IsProper : (r : Rendering) (ms : List ChatMessage) → IsProper (rendered r ms)
unfolding rendered render_prompt
rendered-IsProper r ms =
    choose-IsProper r.use_chatml_fallback (render_chatml r.malloc_text ms) _
      (render_chatml-IsProper r.malloc_text ms)
      (render_template-IsProper r.malloc_messages r.malloc_text r.template ms)
