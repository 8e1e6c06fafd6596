-- ===== src/ConsumerGroup/Laws.antt =====
-- A group fills the interface of `TryRead`.
use mpmc_queue.Prelude.{refl, arith}
use mpmc_queue.Reader.{ReaderLaws}
use mpmc_queue.ConsumerGroup.{group_reader}

pub group_reader-ReaderLaws : ReaderLaws group_reader
group_reader-ReaderLaws = record {
  cursor-put = λ c g. refl;
  put-cursor = λ g. refl;
  put-put = λ b c g. refl;
  skip_onward = λ h i lt. omega arith;
  skip_within = λ h i lt. omega arith;
}
