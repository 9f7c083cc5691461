-- ===== src/Transfer/Delivery.antt =====
-- What a transfer comes to in the end, in terms of the two files.
use reliable_packet_transmis.Base.{
  ℕ, ◌^◌, ◌≤◌, ◌<◌, ◌≡◌, refl, true, List, length, get_elem?, take, ok,
}
use reliable_packet_transmis.Receiver
use reliable_packet_transmis.Sender.{FileSource, finished, last_size_of}
use reliable_packet_transmis.ReliableSender.{Process, start}
use reliable_packet_transmis.Transfer.{System, Reach, initial}
use reliable_packet_transmis.Transfer.Safety.{start-Safe, finished-together}
use reliable_packet_transmis.Transfer.Content.{
  ReadsFile, byte_at, packets_of, chunk_of, content-IsFile, bytes-packets, file_content,
}

-- Let the sender start to send `bytes` bytes, from 1 to 2 ^ 32, of a regular file that holds at
-- least as many, and let both processes run, threads interleaved, while the network loses, delays,
-- reorders and repeats datagrams. In any state so reached in which the sender says that it has
-- finished, the receiver has finished too, and its file holds the first `bytes` bytes of the
-- sender's, each at its place, and nothing more.
pub file_delivered :
    (source : FileSource) (content : List ℕ) (timeout bytes : ℕ) (p : Process) (b : System)
    → ReadsFile source content
    → 0 < bytes
    → bytes ≤ length content
    → bytes ≤ 2 ^ 32
    → start source timeout bytes ≡ ok p
    → Reach source (initial p) b
    → finished b.process.slide_window ≡ true
    → (Receiver.finished b.receiver ≡ true)
      × ((pos : ℕ) → byte_at b.receiver.writes pos ≡ get_elem? (take bytes content) pos)
file_delivered source content timeout bytes p b reads positive held fits begun run done =
    let chunk = chunk_of content bytes in
    let total = packets_of bytes in
    let file = content-IsFile content bytes positive held fits source reads in
    let safe =
      start-Safe source total (last_size_of bytes) chunk file timeout bytes p refl refl
        (bytes-packets content bytes positive held fits) begun in
    let (finished, _, honest, every) =
      finished-together source total (last_size_of bytes) chunk file safe run done in
    (finished, file_content content bytes positive held fits b.receiver.writes honest every)
