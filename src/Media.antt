-- ===== src/Media.antt =====
-- include/sysdvr/ndl_media.h: what the decoder answers to a frame.
pub mod Player

pub data FeedResult : Type 0 where
  feed_ok feed_retry feed_error : FeedResult
