-- ===== src/Actions/Fence/Laws.antt =====
-- A fenced reply reads as the reply inside the fence.
use mathlib.Core.List.{reverse, reverse-append, reverse-cons, reverse-reverse}
use virtual_helmsman.Prelude.{
  Char, from_chars, chars-from_chars, ◌≡◌, refl, ◌∙◌, ap, none, some, List, [], ◌∷◌, ◌++◌, arith,
  is_space, drop_last_space, strip_chars,
}
use virtual_helmsman.Prelude.Text.Strip.{newline, drop_last_space-append, strip_chars-newline}
use virtual_helmsman.Actions.Fence.{
  strip_prefix, strip_suffix, after_newline, fence, unfence, strip_code_fence,
}

after_newline-append :
    (tag rest : List Char)
    → after_newline tag ≡ none
    → after_newline (tag ++ newline ∷ rest) ≡ some rest
unfolding after_newline
after_newline-append [] rest h = refl
after_newline-append (c ∷ tag) rest h = ground (arith, after_newline-append tag rest)

strip_suffix-fence :
    (body : List Char) → strip_suffix fence (body ++ newline ∷ fence) ≡ some (body ++ newline ∷ [])
unfolding strip_suffix strip_prefix
strip_suffix-fence body = rw (reverse-append body (newline ∷ fence)) (
    ap some
      (reverse-cons newline (reverse body) ∙ ap (λ l. l ++ newline ∷ []) (reverse-reverse body)))

strip_code_fence_lem :
    (cs : List Char)
    → strip_code_fence (from_chars cs)
      ≡ from_chars (unfence (strip_chars cs) (strip_prefix fence (strip_chars cs)))
unfolding strip_code_fence
strip_code_fence_lem cs =
    ap (λ ds. from_chars (unfence (strip_chars ds) (strip_prefix fence (strip_chars ds))))
      (chars-from_chars cs)

-- A body between a fence with its tag line and a closing fence on a line of its own.
abbrev pub wrapped : List Char → List Char → List Char
wrapped tag body = fence ++ (tag ++ (newline ∷ (body ++ (newline ∷ fence))))

module _ (tag body : List Char) (plain : after_newline tag ≡ none) where
  closed : drop_last_space (newline ∷ fence) ≡ newline ∷ fence
  unfolding drop_last_space is_space
  closed = refl

  tail_closed : drop_last_space (body ++ newline ∷ fence) ≡ body ++ newline ∷ fence
  tail_closed = drop_last_space-append body newline fence closed

  strip_chars-wrapped : strip_chars (wrapped tag body) ≡ wrapped tag body
  unfolding strip_chars
  strip_chars-wrapped =
      drop_last_space-append (fence ++ tag) newline (body ++ newline ∷ fence)
        (drop_last_space-append (newline ∷ body) newline fence closed)

  unfence-wrapped :
      unfence (wrapped tag body) (strip_prefix fence (wrapped tag body)) ≡ strip_chars body
  unfolding strip_prefix
  unfence-wrapped =
      rw (after_newline-append tag (body ++ (newline ∷ fence)) plain)
        (rw (tail_closed, strip_suffix-fence body) (strip_chars-newline body))

  -- The fence, its tag line and the line end before the closing fence are dropped.
  pub strip_code_fence-wrapped :
      strip_code_fence (from_chars (wrapped tag body)) ≡ from_chars (strip_chars body)
  strip_code_fence-wrapped =
      strip_code_fence_lem (wrapped tag body)
      ∙ ap (λ cs. from_chars (unfence cs (strip_prefix fence cs))) strip_chars-wrapped
      ∙ ap from_chars unfence-wrapped

-- Without a fence of its own a text is only stripped.
pub strip_code_fence-plain :
    (body : List Char)
    → strip_prefix fence (strip_chars body) ≡ none
    → strip_code_fence (from_chars body) ≡ from_chars (strip_chars body)
strip_code_fence-plain body h =
    strip_code_fence_lem body ∙ ap (λ o. from_chars (unfence (strip_chars body) o)) h
