-- ===== src/Lib.antt =====
-- frame-pacer limits the frame rate of a program's presents from a Vulkan layer or an OpenGL interposer,
-- and draws a HUD over it. This library models the parts of it that decide: which limit holds, how long
-- a present waits, which queue paces, what the HUD samples and shows, and what the helper processes say.
--
-- The parts, and how they work together:
--   The limiter reads the configuration file at most once a second, selects the rule of this program,
--   and publishes its limit, HUD switch and thread quota (src/pacer_limit.c). A present asks it for
--   the limit and hands the limit to the clock, which sleeps until the next deadline
--   (src/pacer_clock.c). The queue rule decides if submits pace instead while no presents come
--   (src/pacer_queue.c), on the queues that the Vulkan layer registers (src/vulkan_layer_registry.c).
--   The tracker measures the rate of accepted presents (src/hud_fps.c); a worker thread samples
--   metrics on request (src/hud_metrics_cache.c): the processor and its threads, temperatures, and the
--   GPU (src/hud_metrics.c) by NVIDIA's library (src/hud_nvml_provider.c), by a helper process whose
--   messages a client publishes (src/hud_nvml_protocol.c, src/hud_nvml_client.c), or by the kernel's
--   counters (src/hud_drm_fdinfo.c). The HUD writes rate and metrics as text (src/hud_text.c). A
--   worker puts the thread quota into the cgroups of the threads, or has a controller do it, and
--   confirms it (src/thread_cpu_quota.c); the quota goes to the controller as a line of text, and its
--   confirmation comes back as one (src/thread_cpu_protocol.c).
--
-- Which file models which code:
--   Common        the tests on numbers, lists and bytes, and the widths of the C types
--   Clock         src/pacer_clock.c. `wait` is the whole of frame_pacer_clock_wait; the clock's reading and
--                 the results of the sleeps are its arguments
--   Queue         src/pacer_queue.c. `note_present` and `needs_fallback`
--   Limit         src/pacer_limit.c and .h: Config (the types), Text (bytes and trimming), Values (the values of
--                 keys), Executable (the names that rules are matched with), Parser (parse_limit and
--                 finish_rule), File (the checked read of resolve_limit), Poll (publication, snapshots, revisions)
--   ThreadCpu     Protocol (src/thread_cpu_protocol.c: the two lines, printed and parsed), Quota
--                 (src/thread_cpu_quota.c: the request, the rounds of its worker, the confirmation)
--   Nvml          Protocol (src/hud_nvml_protocol.c: the message, encoded and decoded), Client (the shared manager
--                 of src/hud_nvml_client.c) with Seqlock (its published fields), Provider
--                 (src/hud_nvml_provider.c: the device of a process and its sample)
--   Fps           src/hud_fps.c: init, record_present, snapshot, destroy
--   Vulkan        src/vulkan_layer_registry.c: Registry, the instances, devices and queues of the layer
--   Hud           Metrics (the snapshot of src/hud_metrics.h), Cache (src/hud_metrics_cache.c with its worker),
--                 Sampling (src/hud_metrics.c: Values reads lines, Threads the cgroups of threads), Gpu (the
--                 GPU of a process in src/hud_metrics.c), Drm (src/hud_drm_fdinfo.c), Text (src/hud_text.c)
--   Log           src/log_retention.c: Retention (prune_logs, over the entries of a directory),
--                 Runtime (write_locked, over the answers of write)
--   Report        src/effective_config_report.c: how a text stands in a line of the report
--
-- How it is modelled:
--   A struct is a record, an out-parameter a result or `none`, and a call gives the changed record
--   back. The code keeps its locks around whole sections, so that such a section is one step; where
--   the code looks at state before it locks, that look is in the model too. The integers are natural
--   numbers with the wrap-around of their width written out. What comes from outside the code (file
--   metadata and contents, procfs and sysfs, clock readings, results of pthread_create, the answers of
--   NVIDIA's library and of the Vulkan driver, the sampler in the cache, the quotient in floating
--   point of src/hud_fps.c) is an argument. Readers of the client's published fields do not lock:
--   there each atomic access is a step, in the order of the source, as on x86, and one writer at a
--   time stores: the worker, or `release` behind it as long as no other worker has been started
--   meanwhile. `long` is taken as 64 bits, so that `strtol` and `strtoul` do not saturate on a value
--   that the code goes on to accept. Loops over a text or an array are recursion on
--   it. `print_digits` runs on fuel of ten, the number of decimal digits of 32 bits. The sleep loop of
--   the clock runs over the results of the sleeps, and gives none if they end while the loop still
--   sleeps. The percentage of src/hud_drm_fdinfo.c takes the hundred rounds of its loop, a snapshot of
--   the client its three. The second loop over a line of the processor's times runs on one more than
--   the bytes left, of which each round takes at least one.
--
-- Not modelled: the dispatch and drawing over Vulkan and OpenGL, the writes to cgroups and the calls
-- of systemd, the controller, the helper process, its start and its connection, the loading of
-- NVIDIA's library, the report but for its texts, and the opening and closing of log files. They
-- mostly call libraries or the kernel. The hooks for FRAME_PACER_TEST are left out, and null
-- pointers among the arguments are not represented unless a module says so.
pub mod Common
pub mod Clock
pub mod Queue
pub mod Limit
pub mod ThreadCpu
pub mod Nvml
pub mod Fps
pub mod Hud
pub mod Log
pub mod Report
pub mod Vulkan
