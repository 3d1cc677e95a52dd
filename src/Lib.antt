-- ===== src/Lib.antt =====
-- E3Controller: the controller between a RAN with jbpf codelets and the dApps that read its uplink
-- samples over the E3 interface. This library models the parts of it that carry its own logic, as
-- functions on explicit states, and proves what they promise.
--
-- The program: src/e3_controller.cpp loads a configuration, opens a jbpf context, registers the
-- service models with libe3 and polls the dispatcher. For the slot path a codelet in the RAN hands
-- over a descriptor for each uplink slot; the poll thread runs the slot pipeline's handler, which
-- queues the buffer's pointer; a worker thread takes it from the queue, calls the consumers and
-- releases the buffer. The consumer is the L1 KPM service model, which checks the slot, finds or
-- writes its row in the shared memory, encodes an indication and hands it to libe3 for each
-- subscriber. Beside it stands the older path: a codelet on the fronthaul parses each packet and puts
-- out its section, the IQ pipeline filters, queues and decompresses it, and its consumer is the
-- spectrum service model.
--
-- Files, and the code that they are about:
--   Common: Boolean tests, lists, results, integers; no code of the repository.
--   Config (include/e3_config.h, src/e3_config.cpp): Geometry is RadioGeometry with its validation,
--     Types the records, Parse and Load the YAML loader `load_config`. yaml-cpp is the record Yaml of
--     Config/Parse, a parameter; a float is its bit pattern.
--   Shm (src/e3sm/utils/e3sm_shm_writer.h and .cpp): Convert is int16_to_fp16 and bf16_to_fp16, with
--     the scalar conversion of codelets/include/e3_slot_convert.h beside it; Memory the loops that
--     write cells; Writer is ShmIqWriter: open, close, publish_row, publish_row_cbf16. The outcomes of
--     system calls are arguments, and so is the float product.
--   Shm.SlotConvert (codelets/include/e3_slot_convert.h): convert_slot, the conversion that the RAN's
--     helper shares with the controller, in its three builds; Builds is about the loop of the vector
--     builds, Agreement compares the rows with the controller's own.
--   Pipeline: what the two pipelines share. Spsc is the ring between two threads with the drain of a
--     stop, Worker the worker thread's position and the lifecycle of start and stop, Ledger the account
--     of the entries that left the queue, Plane both together, and Halting the interface by which a
--     stop of either pipeline comes to its end. The threads are interleaved by a list of
--     events: one for a start, one for each half of a stop, one for each entry into the handler, one for
--     each buffer handled, and four for a round of the worker. A buffer is named by its delivery, and
--     its contents are a parameter.
--   Pipeline.Slot (src/e3sm/slot_iq_pipeline.h and .cpp): SlotIqPipeline, with the messages of
--     codelets/include/jbpf_e3_slot_api.h in Slot/Messages; WorkerRun, Progress and Completion are about
--     how many steps the worker needs, Late about a handler that is under way at a stop.
--   Pipeline.Iq (src/e3sm/iq_pipeline.h and .cpp): IqPipeline. Buffers is the account of its buffers,
--     Filter what its consumers are called with.
--   Pipeline.Lcm (the same files): the load and unload requests to jbpf's life cycle manager, whose text
--     fields have sizes that are a parameter; Session is what a history of requests leaves loaded,
--     SlotCalls and IqCalls are the requests of the two pipelines, Sessions and Paths are about both.
--   System (include/jbpf_dispatcher.h and src/e3_controller.cpp with the two pipelines): the dispatcher
--     between jbpf and both pipelines, with the poll thread in one handler at a time; Release is about
--     the buffers, as bags that forget in which order they were released, and about the streams served,
--     and Shutdown about the end of main.
--   Layer1 (src/e3sm/l1_kpm/e3sm_layer_1.h and .cpp): State holds the drop counters and the
--     throttled report, Layer1 the handler on_sample, Lifecycle start, stop and control requests,
--     Summary the final accounting. Ledger and Fate say what a slot does to the object less its report,
--     Rows and Acceptance are about the slots that are numbered. The encoders and libe3 are in the
--     record Env of Layer1/State, a parameter of each call.
--   Dispatcher (include/jbpf_dispatcher.h): JbpfDispatcher, the map from streams to handlers and who
--     releases a batch; Routing is its history. A handler is a name.
--   Bfp (src/e3sm/utils/bfp_decompress.h and .cpp): the 9-bit decompression, where
--     what a shift by 32 or more gives is an argument; Bits compares the
--     extraction with the packed number, Output says what is left in the output.
--   Spectrum (src/e3sm/sm_spectrum/e3sm_spectrum.h and .cpp): E3SMSpectrum's on_sample and
--     handle_control_action; Padding is the mapping of subcarriers to FFT bins, Handler the outcomes of a
--     section and a control request, Lifecycle start and stop and the consumer.
--   Trace (src/e3sm/l1_kpm/l1_kpm_trace.h): the stage stamps and their floor; Ascending is the order
--     of a ring.
--   Codelet.Ecpri (codelets/ecpri_iq_samples/ecpri_iq_collect.c): jbpf_main on the bytes of a
--     packet, where a read outside of them is a verdict of its own; Parse is the way through the
--     headers. Packet describes the packets on its own, as an encoder, which Headers compares with the
--     parser; Roundtrip, Safety and Sampling are about the call. The headers of codelets/include/xran_format.h are read at their byte
--     offsets.
--   Codelet.Uplink (codelets/uplink_slot_samples/uplink_slot_collect.c): jbpf_main on the grid's size;
--     Selection is about the slots that it takes, Published about its descriptors. What jbpf and the
--     helper answer is in the record Env of each codelet, a parameter of the call.
--   Verifier (codelets/verifier/e3_verifier_cli.cpp): the build's gate for codelets, with jbpf's table of
--     helpers and its verification as parameters; Gate is about its exit status and the table.
--   Encoders (src/e3sm/sm_spectrum/e3sm_spect_wrapper.cpp, src/e3sm/l1_kpm/e3sm_layer1_wrapper.cpp and
--     e3sm_layer1_json.cpp): Heap is the allocator as a log of blocks taken and freed, which may refuse any
--     request, Spectrum and Layer1 the encoders and the decoder of controls, Ownership is about their
--     memory, Roundtrip about their bytes. asn1c's coders and the JSON library are parameters.
--   Controller (src/e3_controller.cpp): main as the list of its calls; Lifetime is their order, Wiring
--     what the configuration that it loads means for the IQ pipeline.
--   EndToEnd: the parts composed, Section from a packet to the consumers of the IQ pipeline, Dapp on to
--     the dApps, Reception to what they decode, Slot from the uplink codelet to the dApps,
--     Kpm from the uplink codelet to what a dApp decodes of a slot.
--
-- Integers are natural numbers with their wrap-around written out. Loops are structural recursion;
-- where they take fuel, the drain of a queue takes its capacity, 32 or 64 rounds, and the vector
-- loop one round for each eight cells and one more, the doubling of the FFT size 32 rounds, one for
-- each bit, and theorems show that this is enough.
--
-- Memory orderings are not modelled: each atomic access takes effect at once, and the steps are
-- those between two accesses that another thread can see. Logging, thread pinning and the text of
-- messages are left out, since no decision depends on them, and so are the stamps inside on_sample;
-- of the drop log the rows are kept. No codelet of the repository puts a slot's samples on its channel,
-- and the slot pipeline hands none on, so in controller mode the service model refuses every slot of the
-- pipeline; the rows that it would write are those of Shm.Writer. The eCPRI handler, which only prints, and the
-- benches are not modelled. The headers vendored from the jbpf SDK, codelets/include/xran_format.h and
-- net_utils.h, have no model of their own: the codelet's takes their layouts as byte offsets.
pub mod Codelet
pub mod Common
pub mod Config
pub mod Shm
pub mod Pipeline
pub mod Layer1
pub mod Dispatcher
pub mod Bfp
pub mod Spectrum
pub mod Trace
pub mod Verifier
pub mod Controller
pub mod Encoders
pub mod EndToEnd
pub mod System
