-- ===== src/Core/Producer/Shared.antt =====
-- However the calls interleave, they share one writer for each topic.
use seta_training.Prelude.{
  ◌≤◌, String, List, [], ◌∷◌, ◌++◌, Option, none, some, ◌≡◌, refl, ◌==◌, arith, eq_refl, eq_iff,
  find, select, length, All, Option-cases, inl, inr, find-append, Bool, Bool-cases, ◌+◌,
  if◌then◌else◌,
}
use seta_training.Core.Producer.{
  Writer, Phase, looking, missed, has, sent, Call, Producer, writer_of, found, new_writer,
  take_writer, Step, look_up, take, write, call, Reach, here, next,
}

-- A call that has a writer has the one that the map holds for its topic.
abbrev pub Holds : List Writer → String → Phase → Type 0
Holds ws t looking = Unit
Holds ws t missed = Unit
Holds ws t (has w) = writer_of t ws ≡ some w
Holds ws t (sent w) = writer_of t ws ≡ some w

abbrev pub AllHold : List Writer → List Call → Type 0
AllHold ws = All (λ c. Holds ws c.topic c.phase)

-- No topic has two writers, and all calls of a topic that have a writer have the same one.
pub record IsShared (p : Producer) : Type 0 where
  pub single : (t : String) → length (select (λ w. w.topic == t) p.writers) ≤ 1
  pub held : AllHold p.writers p.calls

module _ (ws : List Writer) where
  AllHold-split :
      (pre post : List Call) (c : Call)
      → AllHold ws (pre ++ c ∷ post)
      → AllHold ws pre × Holds ws c.topic c.phase × AllHold ws post
  AllHold-split [] post c h = (tt, h.0, h.1)
  AllHold-split (x ∷ pre) post c h =
      let (before, at, after) = AllHold-split pre post c h.1 in ((h.0, before), at, after)

  AllHold-join :
      (pre post : List Call) (c : Call)
      → AllHold ws pre
      → Holds ws c.topic c.phase
      → AllHold ws post
      → AllHold ws (pre ++ c ∷ post)
  AllHold-join [] post c before at after = (at, after)
  AllHold-join (x ∷ pre) post c before at after =
      (before.0, AllHold-join pre post c before.1 at after)

AllHold-more :
    (ws : List Writer) (cs : List Call) (t : String)
    → AllHold ws cs
    → AllHold ws (cs ++ record { topic = t; phase = looking } ∷ [])
AllHold-more ws [] t h = (tt, tt)
AllHold-more ws (c ∷ cs) t h = (h.0, AllHold-more ws cs t h.1)

found-Holds :
    (ws : List Writer) (t : String) (o : Option Writer) → writer_of t ws ≡ o → Holds ws t (found o)
found-Holds ws t none h = tt
found-Holds ws t (some w) h = h

-- A writer more, and how many of them are a topic's.
length-select :
    (p : Writer → Bool) (xs : List Writer) (x : Writer)
    → length (select p (xs ++ x ∷ [])) ≡ length (select p xs) + (if p x then 1 else 0)
unfolding select
length-select p [] x = ground arith
length-select p (y ∷ xs) x = ground (arith, length-select p xs x)

no_rows_of : (p : Writer → Bool) (xs : List Writer) → find p xs ≡ none → length (select p xs) ≡ 0
unfolding select find
no_rows_of p [] h = refl
no_rows_of p (x ∷ xs) h = ground (arith, no_rows_of p xs)

module _ (u : String) (ws : List Writer) where
  -- The writer that is taken is the one that the map then holds.
  take_writer_held : writer_of u (take_writer u ws).1 ≡ some (take_writer u ws).0
  unfolding take_writer writer_of find
  take_writer_held = elim (Option-cases (writer_of u ws)) [
    | inl missing ↦
        ground (arith, find-append (λ w. w.topic == u) ws (new_writer u ws ∷ []), eq_refl u)
    | inr (w, there) ↦ ground arith
  ]

  -- The writers that the map holds stay.
  take_writer_keeps :
      (t : String) (w : Writer)
      → writer_of t ws ≡ some w
      → writer_of t (take_writer u ws).1 ≡ some w
  unfolding take_writer writer_of
  take_writer_keeps t w h = elim (Option-cases (writer_of u ws)) [
    | inl missing ↦ ground (arith, find-append (λ v. v.topic == t) ws (new_writer u ws ∷ []))
    | inr (v, there) ↦ ground arith
  ]

  take_writer_single :
      ((t : String) → length (select (λ w. w.topic == t) ws) ≤ 1)
      → (t : String) → length (select (λ w. w.topic == t) (take_writer u ws).1) ≤ 1
  unfolding take_writer writer_of
  take_writer_single single t = elim (Option-cases (writer_of u ws)) [
    | inr (v, there) ↦ rw there (single t)
    | inl missing ↦ rw missing (
        rw (length-select (λ w. w.topic == t) ws (new_writer u ws)) (elim (Bool-cases (u == t)) [
          | inr other ↦ rw other (omega (arith, single t))
          | inl same ↦
              let is : u ≡ t = (eq_iff u t).0 same in
              rw same (omega (arith, no_rows_of (λ w. w.topic == t) ws (rw is at missing)))
        ]))
  ]

  Holds-take_writer : (t : String) (f : Phase) → Holds ws t f → Holds (take_writer u ws).1 t f
  Holds-take_writer t looking h = tt
  Holds-take_writer t missed h = tt
  Holds-take_writer t (has w) h = take_writer_keeps t w h
  Holds-take_writer t (sent w) h = take_writer_keeps t w h

  AllHold-take_writer : (cs : List Call) → AllHold ws cs → AllHold (take_writer u ws).1 cs
  AllHold-take_writer [] h = tt
  AllHold-take_writer (c ∷ cs) h =
      (Holds-take_writer c.topic c.phase h.0, AllHold-take_writer cs h.1)

step-IsShared : {p q : Producer} → Step p q → IsShared p → IsShared q
step-IsShared {p = p} (look_up pre post c calls now) h =
    let (before, mine, after) = AllHold-split p.writers pre post c (rw calls at h.held) in
    record {
      single = h.single;
      held = AllHold-join p.writers pre post _ before (found-Holds p.writers c.topic _ refl) after;
    }
step-IsShared {p = p} (take pre post c calls now) h =
    let (before, mine, after) = AllHold-split p.writers pre post c (rw calls at h.held) in
    record {
      single = take_writer_single c.topic p.writers h.single;
      held =
          AllHold-join (take_writer c.topic p.writers).1 pre post _
            (AllHold-take_writer c.topic p.writers pre before) (take_writer_held c.topic p.writers)
            (AllHold-take_writer c.topic p.writers post after);
    }
step-IsShared {p = p} (write pre post c w calls now) h =
    let (before, mine, after) = AllHold-split p.writers pre post c (rw calls at h.held) in
    record {
      single = h.single;
      held = AllHold-join p.writers pre post _ before (rw now at mine) after;
    }
step-IsShared {p = p} (call topic) h = record {
  single = h.single;
  held = AllHold-more p.writers p.calls topic h.held;
}

-- However calls of `Publish` interleave, no topic has two writers, and every call that has a writer, or
-- has sent its message, has the one that the map holds for its topic.
pub Reach-IsShared : {p : Producer} → Reach p → IsShared p
unfolding select
Reach-IsShared here = record { single = λ t. omega arith; held = tt }
Reach-IsShared (next r s) = step-IsShared s (Reach-IsShared r)
