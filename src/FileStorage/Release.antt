-- ===== src/FileStorage/Release.antt =====
-- `file_free_chunk_extent` of system/file_storage.c gives the chunks of one extent back and closes
-- the gap in the file's array.
use virtual_file_system_c.Prelude.{
  ℕ, zero, suc, ◌<◌, ◌≡◌, refl, ap, sym, ◌∙◌, inl, inr, Bool, true, false, Option, none, some, List,
  [], ◌∷◌, ◌++◌, if◌then◌else◌, length, get_elem?, set,
}
use mathlib.Core.List.{append_assoc}
use mathlib.Core.Option.{some-injective}
use mathlib.Core.Path.{subst}
use virtual_file_system_c.Status.{Result, done}
use virtual_file_system_c.Files.{ChunkExtent}
use virtual_file_system_c.FileStorage.{
  left_shift_loop, left_shift_here, chunk_extent_left_shift, chunk_extent_copy_range,
}
use virtual_file_system_c.FileStorage.Owned.{
  file_chunks, range, file_chunks-used, file_chunks-empty, live, live-used, live-empty,
}
use virtual_file_system_c.FileStorage.Valid.{AllEmpty, Compact}
use virtual_file_system_c.FileStorage.Placed.{AllEmpty-no_chunks}

abbrev pub emptied : ChunkExtent → ChunkExtent
emptied e = record e { is_empty = true }

-- The steps of the loop of `chunk_extent_left_shift`.
module _ (e next : ChunkExtent) (es : List ChunkExtent) where
  loop-empty : next.is_empty ≡ true → left_shift_loop e (next ∷ es) ≡ emptied e ∷ next ∷ es
  unfolding left_shift_loop
  loop-empty h =
      ap
        (λ b.
          if b
          then emptied e ∷ next ∷ es
          else chunk_extent_copy_range e next ∷ left_shift_loop next es)
        h

  loop-used :
      next.is_empty ≡ false
      → left_shift_loop e (next ∷ es) ≡ chunk_extent_copy_range e next ∷ left_shift_loop next es
  unfolding left_shift_loop
  loop-used h =
      ap
        (λ b.
          if b
          then emptied e ∷ next ∷ es
          else chunk_extent_copy_range e next ∷ left_shift_loop next es)
        h

-- What an array `out` has to be to stand for the extents `es` behind a gap that has been closed.
record Closed (es out : List ChunkExtent) : Type 0 where
  chunks : file_chunks out ≡ file_chunks es
  compact : Compact out
  size : length out ≡ suc (length es)
  counted : live out ≡ live es

AllEmpty-live : (es : List ChunkExtent) → AllEmpty es → live es ≡ 0
unfolding live
AllEmpty-live [] h = refl
AllEmpty-live (e ∷ es) (h, _) = live-empty e es h

Closed-empty : (e : ChunkExtent) (es : List ChunkExtent) → AllEmpty es → Closed es (emptied e ∷ es)
Closed-empty e es rest = record {
  chunks = file_chunks-empty (emptied e) es refl ∙ sym (AllEmpty-no_chunks es rest);
  compact = inl (refl, rest);
  size = refl;
  counted = live-empty (emptied e) es refl ∙ sym (AllEmpty-live es rest);
}

-- The loop moves the extents behind the gap one place to the left.
left_shift_loop_lem :
    (e : ChunkExtent) (es : List ChunkExtent)
    → e.is_empty ≡ false
    → Compact es
    → Closed es (left_shift_loop e es)
unfolding chunk_extent_copy_range
left_shift_loop_lem e [] used c = unfold left_shift_loop in Closed-empty e [] tt
left_shift_loop_lem e (next ∷ es) used (inl (empty, rest)) =
    rw (loop-empty e next es empty) (Closed-empty e (next ∷ es) (empty, rest))
left_shift_loop_lem e (next ∷ es) used (inr (next_used, some_chunk, c)) =
    let r = left_shift_loop_lem next es next_used c in
    rw (loop-used e next es next_used) (record {
      chunks =
          file_chunks-used (chunk_extent_copy_range e next) (left_shift_loop next es) used
          ∙ ap (λ ys. range next.start next.chunk_amount ++ ys) r.chunks
          ∙ sym (file_chunks-used next es next_used);
      compact = inr (used, some_chunk, r.compact);
      size = ap suc r.size;
      counted =
          live-used (chunk_extent_copy_range e next) (left_shift_loop next es) used
          ∙ ap suc r.counted
          ∙ sym (live-used next es next_used);
    })

abbrev either : (e next : ChunkExtent) (es : List ChunkExtent) → Bool → Result (List ChunkExtent)
either e next es b =
    if b
    then done (emptied e ∷ next ∷ es)
    else done (left_shift_loop (record e { is_empty = false }) (next ∷ es))

here-step :
    (e next : ChunkExtent) (es : List ChunkExtent)
    → left_shift_here (emptied e) (next ∷ es) ≡ either e next es next.is_empty
unfolding left_shift_here
here-step e next es = refl

-- `chunk_extent_left_shift` at an extent that has just been emptied.
left_shift_here_lem :
    (e : ChunkExtent) (es : List ChunkExtent)
    → Compact es
    → (out : List ChunkExtent) × (left_shift_here (emptied e) es ≡ done out) × Closed es out
left_shift_here_lem e [] c = unfold left_shift_here in (emptied e ∷ [], refl, Closed-empty e [] tt)
left_shift_here_lem e (next ∷ es) (inl (empty, rest)) = (
  emptied e ∷ next ∷ es,
  here-step e next es ∙ ap (either e next es) empty,
  Closed-empty e (next ∷ es) (empty, rest),
)
left_shift_here_lem e (next ∷ es) (inr (next_used, some_chunk, c)) = (
  left_shift_loop (record e { is_empty = false }) (next ∷ es),
  here-step e next es ∙ ap (either e next es) next_used,
  left_shift_loop_lem (record e { is_empty = false }) (next ∷ es) refl
      (inr (next_used, some_chunk, c)),
)

-- The array after an extent `e` in use at `i` has been emptied and the gap closed.
pub record Removed (es : List ChunkExtent) (i : ℕ) (e : ChunkExtent) (es' : List ChunkExtent)
    : Type 0 where
  pub before : List ℕ
  pub after : List ℕ
  pub was : file_chunks es ≡ before ++ (range e.start e.chunk_amount ++ after)
  pub now : file_chunks es' ≡ before ++ after
  pub compact : Compact es'
  pub size : length es' ≡ length es
  pub counted : live es ≡ suc (live es')

Removed-here :
    (e : ChunkExtent) (es out : List ChunkExtent)
    → e.is_empty ≡ false
    → Closed es out
    → Removed (e ∷ es) 0 e out
Removed-here e es out used r = record {
  before = [];
  after = file_chunks es;
  was = file_chunks-used e es used;
  now = r.chunks;
  compact = r.compact;
  size = r.size;
  counted = live-used e es used ∙ ap suc (sym r.counted);
}

Removed-behind :
    (x : ChunkExtent) (es : List ChunkExtent) (i : ℕ) (e : ChunkExtent) (out : List ChunkExtent)
    → x.is_empty ≡ false
    → 0 < x.chunk_amount
    → Removed es i e out
    → Removed (x ∷ es) (suc i) e (x ∷ out)
Removed-behind x es i e out used some_chunk r = record {
  before = range x.start x.chunk_amount ++ r.before;
  after = r.after;
  was =
      file_chunks-used x es used
      ∙ ap (λ ys. range x.start x.chunk_amount ++ ys) r.was
      ∙ sym (
          append_assoc (range x.start x.chunk_amount) r.before
            (range e.start e.chunk_amount ++ r.after));
  now =
      file_chunks-used x out used
      ∙ ap (λ ys. range x.start x.chunk_amount ++ ys) r.now
      ∙ sym (append_assoc (range x.start x.chunk_amount) r.before r.after);
  compact = inr (used, some_chunk, r.compact);
  size = ap suc r.size;
  counted = live-used x es used ∙ ap suc r.counted ∙ ap suc (sym (live-used x out used));
}

AllEmpty-get_elem? :
    (es : List ChunkExtent) (i : ℕ) (e : ChunkExtent)
    → AllEmpty es
    → get_elem? es i ≡ some e
    → e.is_empty ≡ true
AllEmpty-get_elem? [] i e h at = cc
AllEmpty-get_elem? (x ∷ es) zero e (h, _) at = ap is_empty_or (sym at) ∙ h
  where
    is_empty_or : Option ChunkExtent → Bool
    is_empty_or none = true
    is_empty_or (some y) = y.is_empty
AllEmpty-get_elem? (x ∷ es) (suc i) e (_, h) at = AllEmpty-get_elem? es i e h at

shift-here :
    (e : ChunkExtent) (es : List ChunkExtent)
    → chunk_extent_left_shift 0 (e ∷ es) ≡ left_shift_here e es
unfolding chunk_extent_left_shift
shift-here e es = refl

shift-behind :
    (x : ChunkExtent) (es : List ChunkExtent) (i : ℕ) {out : List ChunkExtent}
    → chunk_extent_left_shift i es ≡ done out
    → chunk_extent_left_shift (suc i) (x ∷ es) ≡ done (x ∷ out)
unfolding chunk_extent_left_shift
shift-behind x es i e = rw (e, chunk_extent_left_shift)

true≢false : true ≡ false → ⊥
true≢false h = cc

-- In a compact array in which the extent `e` in use has been emptied, `chunk_extent_left_shift`
-- closes the gap: the file keeps its other chunks, in order.
pub chunk_extent_left_shift_lem :
    (es : List ChunkExtent) (i : ℕ) (e : ChunkExtent)
    → Compact es
    → get_elem? es i ≡ some e
    → e.is_empty ≡ false
    → (out : List ChunkExtent) × (chunk_extent_left_shift i (set es i (emptied e)) ≡ done out)
      × Removed es i e out
chunk_extent_left_shift_lem [] i e c at used = cc
chunk_extent_left_shift_lem (x ∷ es) i e (inl (empty, rest)) at used =
    absurd (true≢false (sym (AllEmpty-get_elem? (x ∷ es) i e (empty, rest) at) ∙ used))
chunk_extent_left_shift_lem (x ∷ es) zero e (inr (x_used, some_chunk, c)) at used =
    let (out, done_here, r) = left_shift_here_lem e es c in
    (
      out,
      shift-here (emptied e) es ∙ done_here,
      subst (λ y. Removed (y ∷ es) 0 e out) (sym (some-injective x e at))
          (Removed-here e es out used r),
    )
chunk_extent_left_shift_lem (x ∷ es) (suc i) e (inr (x_used, some_chunk, c)) at used =
    let (out, e', r) = chunk_extent_left_shift_lem es i e c at used in
    (
      x ∷ out,
      shift-behind x (set es i (emptied e)) i e',
      Removed-behind x es i e out x_used some_chunk r,
    )
