-- ===== src/Lib.antt =====
-- Verification of osmo-fl2k, which turns a USB to VGA adapter with an FL2000 chip into a transmitter:
-- an application gives it samples for the three DACs, and it streams them to the adapter.
--
-- The library is src/libosmo-fl2k.c with include/osmo-fl2k.h. `fl2k_start_tx` starts two threads. The
-- sample worker asks the application for a buffer of samples, takes an empty USB transfer, puts the
-- samples in the order that the chip expects, numbers the transfer and marks it as filled. The USB
-- worker runs libusb's event loop, which calls `_libusb_callback` for each transfer that ends; that
-- submits the oldest filled transfer, or the same one again if none is filled.
--
-- Device        `struct fl2k_dev`, its transfers, and the return codes
-- Transfers     `fl2k_get_next_xfer`, `_libusb_callback`, `fl2k_stop_tx`; a transfer is named by its
--               index, and what `libusb_submit_transfer` returns is an argument
-- Convert       `fl2k_convert_r`, `fl2k_convert_g`, `fl2k_convert_b`; an access outside a buffer gives
--               `none`. Bytes are kept unsigned. The loop has `len + 1` rounds of fuel, and each round
--               goes on by 24
-- Worker        `fl2k_sample_worker`, as steps from one point where another thread may run to the
--               next; the application's callback is a function on `fl2k_data_info_t`
-- Stream        all interleavings of the worker's steps, of callbacks for transfers that libusb holds
--               and of `fl2k_stop_tx`, as a step relation with what is seen of each step
-- Start         `fl2k_start_tx`, `fl2k_alloc_submit_transfers`, `_fl2k_free_async_buffers`, with what
--               libusb, `malloc` and pthread return as arguments, for Linux with zero-copy buffers. An
--               entry of `xfer_buf` says who owns its memory
-- Registers     `fl2k_read_reg`, `fl2k_write_reg`, `fl2k_init_device`, `fl2k_deinit_device`, over any function for
--               `libusb_control_transfer`
-- I2c           `fl2k_i2c_read`, `fl2k_i2c_write`, with their polling loop of ten rounds
-- Discovery     `find_known_device`, `fl2k_get_device_count`, `fl2k_get_device_name` and the search of
--               `fl2k_open`, in any list of USB devices
-- Rds           src/rds_mod.c, the coder of src/fl2k_fm.c: `crc`, `get_rds_ct_group`, `get_rds_group`,
--               the setters, and `get_rds_samples` over any `double` and waveform. The time is an
--               argument, its products with 365.25 and 30.6001 are fractions, and the local offset is
--               that of the branch for Linux
-- Opening       `fl2k_open` and `fl2k_close`, with what libusb and `malloc` return as arguments, and
--               the calls that acquire and give back as a list
-- UsbWorker     `fl2k_usb_worker`: the event loop, the cancellation and the wait for the sample worker, which stands at a
--               place when it is joined. Fuel bounds the rounds of the loops, and more of
--               it than libusb needs to settle is enough
-- SampleRate    `fl2k_reg_to_freq`, `fl2k_set_sample_rate`, `fl2k_get_sample_rate`, over any operations for
--               `float` and `double`
-- Fm            src/fl2k_fm.c: the oscillator, `fm_worker` with its two buffers, `writelen`,
--               `modulate_sample`, `fm_modulator_mono` and `fm_modulator_stereo`, over any operations
--               for `double`. The worker's rounds are those for a list of what is in the ring each time
-- Players       the callbacks of src/fl2k_file.c and src/fl2k_tcp.c. The first one has one round of fuel
--               more than the buffer has bytes, since each round reads a byte or ends the program; the
--               second one goes through a list of what the network gives
-- Programs      the `main` functions of src/fl2k_file.c, src/fl2k_tcp.c, src/fl2k_fm.c and src/fl2k_test.c: options,
--               tests, what they acquire and give back, and their waits, over what they meet
-- Soapy         src/SoapySDR/Streaming.cpp with SoapyOsmoFL2K.hpp, a driver of SoapySDR over the
--               library: the ring of buffers, the set-up of a stream, `writeStream`, and
--               `readStreamStatus`. Soapy.Model is the bounded queue that the ring is to be
-- SoapyDevice   src/SoapySDR/Registration.cpp and Settings.cpp: `findOsmoFL2K` with its static members, the
--               constructor and the destructor, channels, antennas, sample rate and time. What libusb
--               answers in each call is an argument
-- Decimal       `std::to_string` and `std::stoi`, as those two files use them. A number has fewer digits than its
--               value and one, which is the fuel
-- ClockTest     `ppm_test` and the callback of src/fl2k_test.c, with the clock and the option -p as arguments
-- Prelude       numbers, bits, lists and Booleans that the others share
-- Tests         runs on small inputs
--
-- A callback, a step of the worker and a call of `fl2k_stop_tx` are each taken as one step. The code
-- takes no lock between the threads, so what the memory model of C allows beyond that is not shown.
-- Messages on stderr and waiting times are left out, and signals on `buf_cond` but for the wait of UsbWorker.
--
-- Not modelled: the generated tables src/rds_waveforms.c and src/SoapySDR/SampleRates.cpp, the bandwidth of
-- src/SoapySDR/Settings.cpp, which is that of SoapySDR, the copied src/getopt, the test
-- src/SoapySDR/Test.cpp, build files.
pub mod Prelude
pub mod Device
pub mod Transfers
pub mod Convert
pub mod Worker
pub mod Stream
pub mod Registers
pub mod I2c
pub mod Decimal
pub mod Discovery
pub mod Tests
pub mod Rds
pub mod Start
pub mod Players
pub mod Programs
pub mod Fm
pub mod UsbWorker
pub mod Opening
pub mod ClockTest
pub mod SampleRate
pub mod Soapy
pub mod SoapyDevice
