-- ===== src/Core/Producer.antt =====
-- core-service/internal/initialize/kafka_producer.go: calls of `Publish` that run at once, with a
-- writer for each topic.
use seta_training.Prelude.{
  ℕ, String, List, [], ◌∷◌, ◌++◌, Option, none, some, ◌≡◌, ◌==◌, find, length,
}
pub mod Shared
mod Tests

-- A `kafka.Writer`, by its topic; `number` tells writers apart.
pub record Writer : Type 0 where
  pub topic : String
  pub number : ℕ

-- Where a call stands: before it looks under the read lock, after it has found nothing, with a writer,
-- and after it has handed its message to the writer.
pub data Phase : Type 0 where
  looking missed : Phase
  has sent : Writer → Phase

pub record Call : Type 0 where
  pub topic : String
  pub phase : Phase

-- The map of the writers, and the calls that have begun.
pub record Producer : Type 0 where
  pub writers : List Writer
  pub calls : List Call

-- `p.writers[topic]`
unfoldable pub writer_of : String → List Writer → Option Writer
writer_of topic ws = find (λ w. w.topic == topic) ws

abbrev pub found : Option Writer → Phase
found none = missed
found (some w) = has w

-- What is done under the read lock.
abbrev pub look : List Writer → Call → Call
look ws c = record { topic = c.topic; phase = found (writer_of c.topic ws) }

abbrev pub new_writer : String → List Writer → Writer
new_writer topic ws = record { topic = topic; number = length ws }

-- What is done under the lock: the map is read again.
abbrev pub writer_or_new : String → Option Writer → List Writer → Writer × List Writer
writer_or_new topic (some w) ws = (w, ws)
writer_or_new topic none ws = (new_writer topic ws, ws ++ new_writer topic ws ∷ [])

unfoldable pub take_writer : String → List Writer → Writer × List Writer
unfolding writer_of
take_writer topic ws = writer_or_new topic (writer_of topic ws) ws

-- One of the calls goes on, to its next lock or to its writer.
pub data Step (p : Producer) : Producer → Type 0 where
  look_up :
      (pre post : List Call) (c : Call)
      → p.calls ≡ pre ++ c ∷ post
      → c.phase ≡ looking
      → Step p (record { writers = p.writers; calls = pre ++ look p.writers c ∷ post })
  take :
      (pre post : List Call) (c : Call)
      → p.calls ≡ pre ++ c ∷ post
      → c.phase ≡ missed
      → Step p (record {
        writers = (take_writer c.topic p.writers).1;
        calls =
            pre ++ record { topic = c.topic; phase = has (take_writer c.topic p.writers).0 } ∷ post;
      })
  write :
      (pre post : List Call) (c : Call) (w : Writer)
      → p.calls ≡ pre ++ c ∷ post
      → c.phase ≡ has w
      → Step p (record {
        writers = p.writers;
        calls = pre ++ record { topic = c.topic; phase = sent w } ∷ post;
      })
  -- another call begins
  call :
      (topic : String)
      → Step p (record {
        writers = p.writers;
        calls = p.calls ++ record { topic = topic; phase = looking } ∷ [];
      })

-- `NewKafkaProducer`
abbrev pub started : Producer
started = record { writers = []; calls = [] }

pub data Reach : Producer → Type 0 where
  here : Reach started
  next : {p q : Producer} → Reach p → Step p q → Reach q
