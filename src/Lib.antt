-- ===== src/Lib.antt =====
-- The verification of quic_probe, the QUIC download client, and of parts of the test built on it.
--
-- The program. A client (2018-sergey-masters-code/quic_probe) downloads web resources over QUIC with
-- the lsquic library and an event loop. Requests become streams of connections; the read handler
-- turns the bytes of each stream into a header and a body, and the results are posted on an output
-- stack, from which the caller takes them. The YouTube test
-- (2018-sergey-masters-code/youtube_test) finds the links of a video in its page and uses the client to
-- download and play it; an older variant (2018-sergey-masters-code/youtube_tcp_test) does so over curl.
--
-- The files, with what they model under 2018-sergey-masters-code/quic_probe/src unless another
-- folder is named:
--
--   Base           shared names, Boolean tests, lists and integers over the native numbers
--   Memory         the C heap as a function from addresses to objects, with load, store, malloc and
--                  free; Memory/Chain is the node chains of stack.c and simple_list.c, Memory/Bytes
--                  is memcpy on arrays of bytes
--   Stack          stack.c: init_stack, put_stack_element, pull_stack_element, destroy_stack
--   SimpleList     simple_list.c: insertion, removal by position and by data, enumerators
--   Queue          queue.c and queue.h: queue_put_data, queue_pull_data, init_queue, destroy_queue
--   CycleBuffer    cycle_buffer.c: the partitions of a buffer that is handed out in turn
--   TimeDifference timedifference.c, get_time_diff of main.c, and
--                  youtube_test/src/timespec_convertor.c
--   HeaderEnd      check_end_sequence of connection_read_handler.c
--   HttpHeader     html_header_parser.c and mono_parser.c
--   StreamRead     connection_read_handler.c from on_read_to_buffer to http_client_on_read, with
--                  report_stream_error of engine_structs.c
--   Connect        connection_establisher.c, find_connection of connection_params.c and parse_url of
--                  address_finder.c: how queued requests become streams of connections
--   Playout        checkstall of youtube_test/src/metrics.c, and the buffer length of mm_parser.c
--   Download       the byte ranges of youtube_test/src/download_ops.c
--   Arguments      youtube_test/src/arguments_parser.c: options and the list of ports
--   Events         the callbacks of connection_init_handler.c and the timeout of event_handlers.c, on
--                  the engine of Connect; Connect/Slots is its lists of streams
--   Downloader     start_downloading and get_download_result of quic_downloader.c, init_engine of
--                  quic_engine_holder.c and read_socket_packet of socket_handler.c, over sequences of
--                  events
--   Replace        str_replace of youtube_test/src/helper.c and replace_html_codes of
--                  youtube_test/src/getinfo.c
--   Choice         process_adaptive, process_nonadaptive and what main makes of them in
--                  youtube_test/src/youtube-dl.c
--   DownloadLoop   downloadfiles and process_outputs of youtube_test/src/download_ops.c, around the byte
--                  ranges of Download
--   NetworkAddresses  get_ip_version_support of youtube_test/src/network_addresses.c
--   VideoInfo      youtube_test/src/getinfo.c: split_urls; VideoInfo/Duration is extract_duration, and
--                  VideoInfo/Formats findformat and find_urls, with getfilesize of download_ops.c
--   StreamWrite    connection_write_handler.c: the header of a request
--   CurlOps        youtube_tcp_test/src/curlops.c: downloadfiles over curl; CurlOps/FileSize is
--                  getfilesize and set_ip_version
--   PageDownload   youtube_tcp_test/src/youtube-dl.c: the download of the page, up to find_urls;
--                  PageDownload/Quic is the one of youtube_test/src/youtube-dl.c
--
-- State is passed explicitly. A container is a structure with addresses into a heap of the model,
-- and a function that faults (an access through NULL or to freed memory, a write behind an array)
-- returns none; theorems say that a run returns. One such access is left out, so that what comes
-- after it can be followed: http_client_on_stream_close writes is_closed to the stream that it has
-- freed. The addresses that malloc returns are arguments; memory does not run out, as the source
-- assumes. Stream is struct stream_parameters with the effects that a read has on the rest of the
-- engine. lsquic_stream_read is the parameter Transport, a function from the size that is asked for
-- to the answer, and the regex library is the parameter Regex, or regexec where only the span that
-- is found counts. qsort and the answers of curl are parameters, too.
--
-- Loops are structural recursion or take fuel: 5 rounds for each byte and one more for
-- check_end_sequence, since each round moves on in the sequence or moves its start; the size and one
-- more for the loops over containers, since each round but the last takes one element away; one for
-- each byte of the text and one more for the count of str_replace, since the pattern is not empty.
--
-- Not modelled: lsquic, libevent, sockets and name resolution (parameters, where a result counts), the
-- clock, texts of messages, threads of coro.c (a copy of libcoro), ffmpeg and curl. Overflows of
-- counters that count allocated objects are left out.
pub mod Base
pub mod TimeDifference
pub mod CycleBuffer
pub mod HeaderEnd
pub mod Memory
pub mod Stack
pub mod SimpleList
pub mod Queue
pub mod HttpHeader
pub mod StreamRead
pub mod Playout
pub mod Download
pub mod Arguments
pub mod Connect
pub mod CurlOps
pub mod Events
pub mod Downloader
pub mod Replace
pub mod Choice
pub mod DownloadLoop
pub mod NetworkAddresses
pub mod StreamWrite
pub mod VideoInfo
pub mod PageDownload
