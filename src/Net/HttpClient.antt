-- ===== src/Net/HttpClient.antt =====
-- include/net/HttpClient.h and lib/net/HttpClient.cpp: requests over libcurl. The callbacks that
-- libcurl calls are functions of what it passes to them; what is called of libcurl is a note.
pub mod Headers
pub mod Upload
pub mod Reply
pub mod Multi
mod Tests
