-- ===== src/Event.antt =====
-- include/event and lib/event: the event loop's timers and descriptors, and signals.
pub mod Timers
pub mod Fds
pub mod Queue
pub mod Kqueue
pub mod Epoll
pub mod Signal
mod Tests
